-- ===== src/Text.antt =====
-- src/common/text.c: lines and words of a text, and searches in it. A text is the list of its bytes; a
-- pointer into it is the list of the bytes from there to the text's end.
pub mod Lines
pub mod Find
pub mod Search
mod Tests
use sysvkit.Base.{
  ℕ, zero, suc, ◌+◌, Bool, true, false, not, ◌&&◌, ◌||◌, Option, none, some, List, [], ◌∷◌, Bytes,
  span, ◌==◌, leb, ltb, if◌then◌else◌, length, take, drop,
}

unfoldable pub is_space : ℕ → Bool
is_space ch = ch == 32 || ch == 12 || ch == 10 || ch == 13 || ch == 9 || ch == 11

-- The bytes that a line and a word run over, and the space before a word.
unfoldable pub in_line : ℕ → Bool
in_line ch = not (ch == 0) && not (ch == b'\n')

unfoldable pub in_word : ℕ → Bool
in_word ch = not (ch == 0) && not (is_space ch)

unfoldable pub before_word : ℕ → Bool
before_word ch = not (ch == 0) && is_space ch

-- text_narrow: the bytes from `offset` on, `len` of them; none for EINVAL.
unfoldable pub text_narrow : Bytes → ℕ → ℕ → Option Bytes
text_narrow txt offset len =
    if ltb (length txt) (offset + len) then none else some (take len (drop offset txt))

-- A line or a word: its bytes, and where it ends.
unfoldable pub text_first_line : Bytes → Bytes × Bytes
text_first_line txt = span in_line txt

unfoldable pub text_next_line : Bytes → Option (Bytes × Bytes)
text_next_line [] = none
text_next_line (end ∷ []) = none
text_next_line (end ∷ c ∷ rest) = if end == 0 then none else some (span in_line (c ∷ rest))

unfoldable pub text_first_word : Bytes → Bytes × Bytes
text_first_word txt = span in_word (span before_word txt).1

-- The word behind the spaces, if the text goes on there.
abbrev pub word_at : Bytes → Option (Bytes × Bytes)
word_at [] = none
word_at (c ∷ rest) = if c == 0 then none else some (span in_word (c ∷ rest))

unfoldable pub text_next_word : Bytes → Option (Bytes × Bytes)
text_next_word [] = none
text_next_word (end ∷ rest) = word_at (span before_word rest).1

-- The loop over a text's lines that the clients write, from the end of a line on. The fuel is the
-- number of bytes left.
unfoldable pub lines_from : ℕ → Bytes → List Bytes
lines_from zero rest = []
lines_from (suc n) rest = elim (text_next_line rest) [ none ↦ [] | some r ↦ r.0 ∷ lines_from n r.1 ]

unfoldable pub text_lines : Bytes → List Bytes
text_lines txt = let first = text_first_line txt in first.0 ∷ lines_from (length first.1) first.1

-- The string that is searched for: the first `len` bytes, or all of them where `len` is 0.
unfoldable pub pattern : Bytes → ℕ → Bytes
pattern str len = if len == 0 then str else take len str

-- The inner loop of the searches: whether the string was matched to its end, and where it stopped.
unfoldable pub match_here : Bytes → Bytes → Bool × Bytes
match_here [] txt = (true, txt)
match_here (s ∷ str) [] = (false, [])
match_here (s ∷ str) (q ∷ txt) =
    let rest = match_here str txt in if not (q == 0) && q == s then rest else (false, q ∷ txt)

-- `*p == *str`, where an empty string shows its NUL.
abbrev pub same_first : ℕ → Bytes → Bool
same_first p [] = p == 0
same_first p (s ∷ str) = p == s

unfoldable pub find_from : Bytes → Bytes → Option Bytes
find_from str [] = none
find_from str (p ∷ txt) =
    let later = find_from str txt in
    if p == 0
    then none
    else if same_first p str && (match_here str (p ∷ txt)).0
    then some (p ∷ txt)
    else later

unfoldable pub text_find : Bytes → Bytes → ℕ → Option Bytes
text_find txt str len = find_from (pattern str len) txt
