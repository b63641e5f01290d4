-- ===== src/Text/Tests.antt =====
-- Runs of the text functions, and instances of their theorems.
use sysvkit.Base.{◌≡◌, refl, some, [], ◌∷◌, ◌++◌, codes, span}
use sysvkit.Text.{
  is_space, in_line, in_word, before_word, text_first_line, text_next_line, lines_from, text_lines,
  text_first_word, text_next_word, pattern, match_here, find_from, text_find, text_narrow,
}
use sysvkit.Text.Lines.{unlines, rest_line, text_lines-unlines}

-- Whatever a run goes through.
runs : Unit {0}
unfolding is_space in_line in_word before_word text_first_line text_next_line lines_from text_lines
    text_first_word text_next_word pattern match_here find_from text_find text_narrow span
runs = tt

two_lines : text_lines (codes "a b\n\nc") ≡ codes "a b" ∷ [] ∷ codes "c" ∷ []
unfolding runs
two_lines = refl

first_word : text_first_word (codes "  Type=forking x") ≡ (codes "Type=forking", codes " x")
unfolding runs
first_word = refl

next_word : text_next_word (codes "  x y") ≡ some (codes "x", codes " y")
unfolding runs
next_word = refl

found_there : text_find (codes "### BEGIN") (codes "# B") 0 ≡ some (codes "# BEGIN")
unfolding runs
found_there = refl

narrowed : text_narrow (codes "abcd") 1 2 ≡ some (codes "bc")
unfolding runs
narrowed = refl

text_lines-unlines_example :
    text_lines (unlines (codes "ab" ∷ [] ∷ []) ++ codes "c")
    ≡ (codes "ab" ∷ [] ∷ []) ++ rest_line (codes "c")
unfolding in_line
text_lines-unlines_example =
    text_lines-unlines (codes "ab") ([] ∷ []) (codes "c") ((refl, (refl, tt)), (tt, tt)) (refl, tt)
