-- ===== src/Strlist/Vector.antt =====
-- The vector of strings.
use sysvkit.Base.{
  ℕ, suc, ◌+◌, ◌-◌, ◌≡◌, refl, sym, ap, ◌∙◌, false, List, [], ◌∷◌, ◌++◌, Bytes, ◌==◌, if◌then◌else◌,
  length, All, arith, append_assoc, length-append, drop,
}
use sysvkit.Strlist.{strings_size, pointers_size, fill_vector, strlist_to_vector}

-- The C string that a pointer reads: the bytes up to the first NUL.
unfoldable pub read_string : Bytes → Bytes
read_string [] = []
read_string (c ∷ s) = let rest = read_string s in if c == 0 then [] else c ∷ rest

-- What a pointer of the vector reads.
unfoldable pub read_at : ℕ → Bytes → ℕ → Bytes
read_at area bytes p = read_string (drop (p - area) bytes)

unfoldable pub read_all : ℕ → Bytes → List ℕ → List Bytes
read_all area bytes [] = []
read_all area bytes (p ∷ ptrs) = read_at area bytes p ∷ read_all area bytes ptrs

-- The string has no NUL in it.
abbrev pub IsCString : Bytes → Type 0
IsCString s = All (λ c. (c == 0) ≡ false) s

drop-append : (s t : Bytes) → drop (length s) (s ++ t) ≡ t
drop-append [] t = refl
drop-append (c ∷ s) t = drop-append s t

read_string-append : (s t : Bytes) → IsCString s → read_string (s ++ (0 ∷ t)) ≡ s
unfolding read_string
read_string-append [] t h = refl
read_string-append (c ∷ s) t (h, hs) = rw (h, read_string-append s t hs) refl

first_reads :
    (area at : ℕ) (before s t : Bytes)
    → at ≡ area + length before
    → IsCString s
    → read_at area (before ++ (s ++ (0 ∷ t))) at ≡ s
unfolding read_at
first_reads area at before s t e h =
    ap (λ n. read_string (drop n (before ++ (s ++ (0 ∷ t))))) (offset area at (length before) e)
    ∙ ap read_string (drop-append before (s ++ (0 ∷ t)))
    ∙ read_string-append s t h
  where
    offset : (area at n : ℕ) → at ≡ area + n → at - area ≡ n
    offset area at n e = omega arith

fill_vector_reads :
    (area at : ℕ) (before : Bytes) (l : List Bytes)
    → at ≡ area + length before
    → All IsCString l
    → read_all area (before ++ (fill_vector at l).1) (fill_vector at l).0 ≡ l
unfolding fill_vector read_all
fill_vector_reads area at before [] e h = refl
fill_vector_reads area at before (s ∷ l) e (h, hs) =
    let rest = fill_vector (at + length s + 1) l in
    rw (first_reads area at before s rest.1 e h) (
      ap (λ r. s ∷ r)
        (ap (λ bytes. read_all area bytes rest.0) (regroup s rest.1)
          ∙ fill_vector_reads area (at + length s + 1) (before ++ s ++ 0 ∷ []) l next hs))
  where
    regroup : (s t : Bytes) → before ++ (s ++ (0 ∷ t)) ≡ (before ++ s ++ 0 ∷ []) ++ t
    regroup s t = sym (append_assoc (before ++ s) (0 ∷ []) t ∙ append_assoc before s (0 ∷ t))

    next : at + length s + 1 ≡ area + length (before ++ s ++ 0 ∷ [])
    next = rw (length-append (before ++ s) (0 ∷ []), length-append before s) (omega arith)

length-fill_vector : (at : ℕ) (l : List Bytes) → length (fill_vector at l).1 ≡ strings_size l
unfolding fill_vector strings_size
length-fill_vector at [] = refl
length-fill_vector at (s ∷ l) =
    rw
      (
        length-append s (0 ∷ (fill_vector (at + length s + 1) l).1),
        length-fill_vector (at + length s + 1) l,
      )
      (omega arith)

fill_vector_count : (at : ℕ) (l : List Bytes) → length (fill_vector at l).0 ≡ length l
unfolding fill_vector
fill_vector_count at [] = refl
fill_vector_count at (s ∷ l) = ap suc (fill_vector_count (at + length s + 1) l)

-- The vector of a list of C strings has a pointer for each, every pointer reads its string back, and
-- the strings fill the allocation behind the pointers exactly.
pub strlist_to_vector_reads :
    (word : ℕ) (l : List Bytes)
    → All IsCString l
    → (length (strlist_to_vector word l).pointers ≡ length l)
      × (read_all
            (strlist_to_vector word l).area
            (strlist_to_vector word l).bytes
            (strlist_to_vector word l).pointers
          ≡ l)
      × ((strlist_to_vector word l).area + length (strlist_to_vector word l).bytes
          ≡ (strlist_to_vector word l).size)
unfolding strlist_to_vector
strlist_to_vector_reads word l h = (
  fill_vector_count (pointers_size word l + word) l,
  fill_vector_reads (pointers_size word l + word) (pointers_size word l + word) [] l (omega arith)
      h,
  ap (λ n. pointers_size word l + word + n) (length-fill_vector (pointers_size word l + word) l),
)
