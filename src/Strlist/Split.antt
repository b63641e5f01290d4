-- ===== src/Strlist/Split.antt =====
-- Joining and splitting with a delimiter.
use sysvkit.Base.{
  ℕ, ◌<◌, ◌≡◌, refl, sym, ap, ◌∙◌, Bool, true, false, ◌||◌, List, [], ◌∷◌, ◌++◌, Bytes, bytes_eq,
  bytes_eq_refl, length-append, ◌==◌, length, ltb, All, arith, append_assoc, append-nil,
}
use sysvkit.Strlist.{
  delimiter, seen_before, from_delim, strlist_from_delim, append_delim, drop_last, strlist_to_delim,
}

-- No byte of the string is the delimiter.
abbrev pub Lacks : ℕ → Bytes → Type 0
Lacks d s = All (λ c. (c == d) ≡ false) s

-- The bytes of an element without a delimiter are collected.
from_delim-collect :
    (d : ℕ) (blank dedup : Bool) (seen : List Bytes) (elem s rest : Bytes)
    → Lacks d s
    → from_delim d blank dedup seen elem (s ++ rest)
      ≡ from_delim d blank dedup seen (elem ++ s) rest
unfolding from_delim
from_delim-collect d blank dedup seen elem [] rest h = rw (append-nil elem) refl
from_delim-collect d blank dedup seen elem (c ∷ s) rest (h, hs) = rw (h) (
    from_delim-collect d blank dedup seen (elem ++ c ∷ []) s rest hs
    ∙ rw (append_assoc elem (c ∷ []) s) refl)

same : (d : ℕ) → (d == d) ≡ true
same d = ground arith

from_delim-last :
    (d : ℕ) (blank dedup : Bool) (seen : List Bytes) (elem s : Bytes)
    → Lacks d s
    → from_delim d blank dedup seen elem s ≡ from_delim d blank dedup seen (elem ++ s) []
from_delim-last d blank dedup seen elem s h =
    ap (from_delim d blank dedup seen elem) (sym (append-nil s))
    ∙ from_delim-collect d blank dedup seen elem s [] h

-- Strings with the delimiter between them.
abbrev pub join : ℕ → Bytes → List Bytes → Bytes
join d s [] = s
join d s (t ∷ l) = s ++ (d ∷ join d t l)

drop_last-append :
    (s : Bytes) (c : ℕ) (t : Bytes) → drop_last (s ++ (c ∷ t)) ≡ s ++ drop_last (c ∷ t)
drop_last-append [] c t = refl
drop_last-append (a ∷ []) c t = refl
drop_last-append (a ∷ b ∷ s) c t = ap (λ r. a ∷ r) (drop_last-append (b ∷ s) c t)

drop_last-join :
    (d : ℕ) (seen : List Bytes) (s : Bytes) (l : List Bytes)
    → drop_last (append_delim d false seen (s ∷ l)) ≡ join d s l
unfolding append_delim
drop_last-join d seen s [] = drop_last-append s d [] ∙ append-nil s
drop_last-join d seen s ([] ∷ l) =
    drop_last-append s d (append_delim d false (s ∷ seen) ([] ∷ l))
    ∙ ap (λ r. s ++ (d ∷ r)) (drop_last-join d (s ∷ seen) [] l)
drop_last-join d seen s ((c ∷ t) ∷ l) =
    drop_last-append s d (append_delim d false (s ∷ seen) ((c ∷ t) ∷ l))
    ∙ ap (λ r. s ++ (d ∷ r)) (drop_last-join d (s ∷ seen) (c ∷ t) l)

-- A string that is kept as an element: without the delimiter, and not empty unless blanks are kept.
abbrev pub IsElement : Bool → ℕ → Bytes → Type 0
IsElement blank d s = ((blank || ltb 0 (length s)) ≡ true) × Lacks d s

split_joined :
    (d : ℕ) (blank : Bool) (seen : List Bytes) (s : Bytes) (l : List Bytes)
    → All (IsElement blank d) (s ∷ l)
    → from_delim d blank false seen [] (join d s l) ≡ s ∷ l
unfolding from_delim
split_joined d blank seen s [] ((w, h), hs) =
    from_delim-last d blank false seen [] s h ∙ rw (w) refl
split_joined d blank seen s (t ∷ l) ((w, h), hs) =
    from_delim-collect d blank false seen [] s (d ∷ join d t l) h
    ∙ rw (same d, w, split_joined d blank (s ∷ seen) t l hs) refl

-- Splitting undoes joining: a list that is not empty, of strings without the delimiter, none of them
-- empty unless blank elements are kept, comes back from its delimited string when no repeated
-- element is dropped on either side.
pub strlist_from_delim-strlist_to_delim :
    (delim : ℕ) (blank : Bool) (s : Bytes) (l : List Bytes)
    → All (IsElement blank (delimiter delim)) (s ∷ l)
    → strlist_from_delim (strlist_to_delim (s ∷ l) delim false) delim blank false ≡ s ∷ l
unfolding strlist_from_delim strlist_to_delim
strlist_from_delim-strlist_to_delim delim blank s l h =
    ap (from_delim (delimiter delim) blank false [] []) (drop_last-join (delimiter delim) [] s l)
    ∙ split_joined (delimiter delim) blank [] s l h

longer_differs : (a : Bytes) (d : ℕ) (b : Bytes) → bytes_eq (a ++ (d ∷ b)) a ≡ false
unfolding bytes_eq
longer_differs [] d b = refl
longer_differs (c ∷ a) d b = rw (longer_differs a d b, same c) refl

-- The bytes behind a first element, which is not empty, and behind its repetition.
first_element :
    (d : ℕ) (blank : Bool) (a rest : Bytes)
    → (0 < length a)
    → Lacks d a
    → from_delim d blank true [] [] (a ++ (d ∷ rest)) ≡ a ∷ from_delim d blank true (a ∷ []) [] rest
unfolding from_delim seen_before
first_element d blank a rest n h =
    from_delim-collect d blank true [] [] a (d ∷ rest) h ∙ rw (same d) (ground arith)

repeated_element :
    (d : ℕ) (blank : Bool) (a b : Bytes)
    → (0 < length a)
    → Lacks d a
    → Lacks d b
    → from_delim d blank true (a ∷ []) [] (a ++ (d ∷ b)) ≡ (a ++ (d ∷ b)) ∷ []
unfolding from_delim seen_before
repeated_element d blank a b n h hb =
    from_delim-collect d blank true (a ∷ []) [] a (d ∷ b) h
    ∙ rw (same d, bytes_eq_refl a)
        (ground arith
          ∙ from_delim-last d blank true (a ∷ []) (a ++ d ∷ []) b hb
          ∙ rw (append_assoc a (d ∷ []) b, longer_differs a d b, length-append a (d ∷ b))
              (ground arith))

-- With repeated elements dropped, a repeated element is not left out when another follows it: it
-- stays at the front of that one, delimiter included.
pub strlist_from_delim_repeated :
    (delim : ℕ) (blank : Bool) (a b : Bytes)
    → (0 < length a)
    → Lacks (delimiter delim) a
    → Lacks (delimiter delim) b
    → strlist_from_delim (a ++ (delimiter delim ∷ (a ++ (delimiter delim ∷ b)))) delim blank true
      ≡ a ∷ (a ++ (delimiter delim ∷ b)) ∷ []
unfolding strlist_from_delim
strlist_from_delim_repeated delim blank a b n h hb =
    first_element (delimiter delim) blank a (a ++ (delimiter delim ∷ b)) n h
    ∙ ap (λ l. a ∷ l) (repeated_element (delimiter delim) blank a b n h hb)
