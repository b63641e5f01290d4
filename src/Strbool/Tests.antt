-- ===== src/Strbool/Tests.antt =====
-- Runs of strbool, and an instance of its theorem.
use sysvkit.Base.{◌≡◌, refl, true, some, none, codes, bytes_eq}
use sysvkit.Strbool.{lower_byte, lower, case_eq, strbool}

-- Whatever a run goes through.
runs : Unit {0}
unfolding lower_byte lower case_eq strbool bytes_eq
runs = tt

upper_yes : strbool (some (codes "YES")) ≡ some true
unfolding runs
upper_yes = refl

upper_no : strbool (some (codes "NO")) ≡ none
unfolding runs
upper_no = refl

same_no : bytes_eq (lower (codes "Off")) (codes "no") ≡ bytes_eq (codes "Off") (codes "no")
unfolding runs
same_no = refl
