-- ===== src/Strlist/Tests.antt =====
-- Runs of the string list functions, and instances of their theorems.
use sysvkit.Base.{◌≡◌, refl, true, false, [], ◌∷◌, codes, bytes_eq}
use sysvkit.Strlist.{
  delimiter, seen_before, from_delim, strlist_from_delim, append_delim, strlist_to_delim,
}
use sysvkit.Strlist.Split.{strlist_from_delim-strlist_to_delim}

-- Whatever a run goes through.
runs : Unit {0}
unfolding delimiter seen_before from_delim strlist_from_delim append_delim strlist_to_delim bytes_eq
runs = tt

-- The elements of PATH-like strings; blanks are left out unless they are wanted.
split_blanks : strlist_from_delim (codes ":a::b") 0 false false ≡ codes "a" ∷ codes "b" ∷ []
unfolding runs
split_blanks = refl

joined_once : strlist_to_delim (codes "a" ∷ codes "b" ∷ codes "a" ∷ []) 0 true ≡ codes "a:b"
unfolding runs
joined_once = refl

strlist_from_delim-strlist_to_delim_example :
    strlist_from_delim (strlist_to_delim (codes "ab" ∷ codes "c" ∷ []) 0 false) 0 false false
    ≡ codes "ab" ∷ codes "c" ∷ []
unfolding delimiter
strlist_from_delim-strlist_to_delim_example =
    strlist_from_delim-strlist_to_delim 0 false (codes "ab") (codes "c" ∷ [])
      ((refl, (refl, (refl, tt))), ((refl, (refl, tt)), tt))
