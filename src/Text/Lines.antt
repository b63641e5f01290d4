-- ===== src/Text/Lines.antt =====
-- The lines of a text.
use sysvkit.Base.{
  ℕ, zero, suc, ◌+◌, ◌<◌, ◌≡◌, refl, sym, subst, ap, ◌∙◌, Bool, true, false, not, ◌&&◌, none, some,
  List, [], ◌∷◌, ◌++◌, Bytes, span, ◌==◌, length, length-append, All, span-append, arith,
  append_assoc, append-nil,
}
use sysvkit.Text.{
  in_line, text_first_line, text_next_line, lines_from, text_lines, is_space, text_next_word,
  before_word, in_word,
}

-- A line: no NUL and no newline.
abbrev pub IsLine : Bytes → Type 0
IsLine s = All (λ c. in_line c ≡ true) s

-- Each line with a newline behind it.
abbrev pub unlines : List Bytes → Bytes
unlines [] = []
unlines (s ∷ l) = s ++ (b'\n' ∷ unlines l)

-- What stands behind the last newline, if anything does, is a line too.
abbrev pub rest_line : Bytes → List Bytes
rest_line [] = []
rest_line (c ∷ s) = (c ∷ s) ∷ []

newline : in_line b'\n' ≡ false
unfolding in_line
newline = refl

-- Behind a newline.
next_line_full :
    (s rest : Bytes)
    → IsLine s
    → text_next_line (b'\n' ∷ (s ++ (b'\n' ∷ rest))) ≡ some (s, b'\n' ∷ rest)
unfolding text_next_line in_line
next_line_full [] rest h = rw (span-append in_line [] (b'\n' ∷ rest) tt refl) refl
next_line_full (c ∷ s) rest h = rw (span-append in_line (c ∷ s) (b'\n' ∷ rest) h refl) refl

next_line_rest :
    (c : ℕ) (s : Bytes) → IsLine (c ∷ s) → text_next_line (b'\n' ∷ c ∷ s) ≡ some (c ∷ s, [])
unfolding text_next_line
next_line_rest c s h =
    ap (λ t. some (span in_line t)) (sym (append-nil (c ∷ s)))
    ∙ rw (span-append in_line (c ∷ s) [] h tt) refl

last_line : (n : ℕ) → lines_from (suc n) (b'\n' ∷ []) ≡ []
unfolding lines_from text_next_line
last_line n = refl

no_lines : (n : ℕ) → lines_from n [] ≡ []
unfolding lines_from text_next_line
no_lines zero = refl
no_lines (suc n) = refl

bracket :
    (s : Bytes) (l : List Bytes) (last : Bytes)
    → s ++ (b'\n' ∷ unlines l) ++ last ≡ s ++ (b'\n' ∷ (unlines l ++ last))
bracket s l last = append_assoc s (b'\n' ∷ unlines l) last

fewer :
    (s : Bytes) (l : List Bytes) (last : Bytes) (n : ℕ)
    → length (unlines (s ∷ l) ++ last) < suc n
    → length (unlines l ++ last) < n
fewer s l last n b = less (length s) (
    subst (λ m. m < suc n)
      (ap length (bracket s l last) ∙ length-append s (b'\n' ∷ (unlines l ++ last))) b)
  where
    less : (k : ℕ) → k + suc (length (unlines l ++ last)) < suc n → length (unlines l ++ last) < n
    less k h = omega arith

lines_step :
    (n : ℕ) (rest line end : Bytes)
    → text_next_line rest ≡ some (line, end)
    → lines_from (suc n) rest ≡ line ∷ lines_from n end
unfolding lines_from
lines_step n rest line end e =
    ap (λ o. elim o as (λ _. List Bytes) [ none ↦ [] | some r ↦ r.0 ∷ lines_from n r.1 ]) e

lines_from-unlines :
    (n : ℕ) (l : List Bytes) (last : Bytes)
    → All IsLine l
    → IsLine last
    → length (unlines l ++ last) < n
    → lines_from n (b'\n' ∷ (unlines l ++ last)) ≡ l ++ rest_line last
lines_from-unlines zero l last h hl b = absurd (omega arith)
lines_from-unlines (suc n) [] [] h hl b = last_line n
lines_from-unlines (suc n) [] (c ∷ last) h hl b =
    lines_step n (b'\n' ∷ c ∷ last) (c ∷ last) [] (next_line_rest c last hl)
    ∙ ap (λ r. (c ∷ last) ∷ r) (no_lines n)
lines_from-unlines (suc n) (s ∷ l) last (h, hs) hl b =
    ap (λ t. lines_from (suc n) (b'\n' ∷ t)) (bracket s l last)
    ∙ lines_step n (b'\n' ∷ (s ++ (b'\n' ∷ (unlines l ++ last)))) s (b'\n' ∷ (unlines l ++ last))
        (next_line_full s (unlines l ++ last) h)
    ∙ ap (λ r. s ∷ r) (lines_from-unlines n l last hs hl (fewer s l last n b))

-- The lines of a text that consists of one line or more, each with a newline behind it, and of a last
-- one without, are those lines, where no line has a newline or a NUL in it; an empty last one is none.
pub text_lines-unlines :
    (s : Bytes) (l : List Bytes) (last : Bytes)
    → All IsLine (s ∷ l)
    → IsLine last
    → text_lines (unlines (s ∷ l) ++ last) ≡ (s ∷ l) ++ rest_line last
unfolding text_lines text_first_line
text_lines-unlines s l last (h, hs) hl =
    rw (bracket s l last, span-append in_line s (b'\n' ∷ (unlines l ++ last)) h newline)
      (ap (λ r. s ∷ r)
        (lines_from-unlines (suc (length (unlines l ++ last))) l last hs hl (omega arith)))

word_begins : (c : ℕ) → in_word c ≡ true → (before_word c ≡ false) × ((c == 0) ≡ false)
unfolding in_word before_word
word_begins c h = go (c == 0) (is_space c) h
  where
    go :
        (nul space : Bool)
        → (not nul && not space) ≡ true
        → ((not nul && space) ≡ false) × (nul ≡ false)
    go true true h = cc
    go true false h = cc
    go false true h = cc
    go false false h = (refl, refl)

word_to_end :
    (c : ℕ) (s : Bytes) → All (λ a. in_word a ≡ true) (c ∷ s) → span in_word (c ∷ s) ≡ (c ∷ s, [])
word_to_end c s h =
    ap (span in_word) (sym (append-nil (c ∷ s))) ∙ span-append in_word (c ∷ s) [] h tt

-- Behind a NUL that stands in a text there is no next line, but there is a next word.
pub text_next_word_behind_nul :
    (c : ℕ) (s : Bytes)
    → All (λ a. in_word a ≡ true) (c ∷ s)
    → (text_next_line (0 ∷ c ∷ s) ≡ none) × (text_next_word (0 ∷ c ∷ s) ≡ some (c ∷ s, []))
unfolding text_next_line text_next_word span
text_next_word_behind_nul c s (h, hs) =
    (refl, rw ((word_begins c h).0, (word_begins c h).1) (ap some (word_to_end c s (h, hs))))
