-- ===== src/Text/Search.antt =====
-- src/common/text.c: searches for a line. A line is where it begins and where it ends, as pointers.
pub mod Skip
use sysvkit.Base.{
  ℕ, zero, suc, ◌-◌, Bool, true, false, ◌&&◌, ◌||◌, Option, none, some, List, [], ◌∷◌, Bytes, span,
  ◌==◌, if◌then◌else◌, length, take, drop,
}
use sysvkit.Text.{in_line, pattern, match_here}

pub record TextLine : Type 0 where
  pub beg : Bytes
  pub end : Bytes

-- The bytes from a pointer up to a later one.
unfoldable pub between : Bytes → Bytes → Bytes
between p q = take (length p - length q) p

-- q == txt->end || *q == '\0' || *q == '\n'
abbrev pub at_line_end : Bytes → Bool
at_line_end [] = true
at_line_end (c ∷ s) = c == 0 || c == b'\n'

-- What the searches test at a line's beginning, and the pointer behind what was matched.
unfoldable pub line_prefix : Bytes → Bytes → Bool × Bytes
line_prefix str p = match_here str p

unfoldable pub line_equals : Bytes → Bytes → Bool × Bytes
line_equals str p = let (matched, q) = match_here str p in (matched && at_line_end q, q)

-- The loop of the searches, from p on; behind a line that is not the one, it goes on past the byte that
-- ended it. The fuel is the number of bytes left.
unfoldable pub find_line : (Bytes → Bool × Bytes) → ℕ → Bytes → Option TextLine
find_line test zero p = none
find_line test (suc n) [] = none
find_line test (suc n) (c ∷ s) =
    let q = (span in_line (test (c ∷ s)).1).1 in
    let later = find_line test n (drop 1 q) in
    if c == 0
    then none
    else if (test (c ∷ s)).0
    then some (record { beg = c ∷ s; end = q })
    else later

unfoldable pub first_line_where : (Bytes → Bool × Bytes) → Bytes → Option TextLine
first_line_where test txt = find_line test (length txt) txt

-- From behind a line; none too where it is the last one or a NUL ended it.
unfoldable pub next_line_where : (Bytes → Bool × Bytes) → Bytes → Option TextLine
next_line_where test [] = none
next_line_where test (e ∷ []) = none
next_line_where test (e ∷ c ∷ s) = if e == 0 then none else find_line test (length (c ∷ s)) (c ∷ s)

unfoldable pub text_first_line_prefix : Bytes → Bytes → ℕ → Option TextLine
text_first_line_prefix txt str len = first_line_where (line_prefix (pattern str len)) txt

unfoldable pub text_next_line_prefix : TextLine → Bytes → ℕ → Option TextLine
text_next_line_prefix line str len = next_line_where (line_prefix (pattern str len)) line.end

unfoldable pub text_first_line_equals : Bytes → Bytes → ℕ → Option TextLine
text_first_line_equals txt str len = first_line_where (line_equals (pattern str len)) txt

unfoldable pub text_next_line_equals : TextLine → Bytes → ℕ → Option TextLine
text_next_line_equals line str len = next_line_where (line_equals (pattern str len)) line.end
