-- ===== src/Strlist.antt =====
-- src/common/strlist.c: lists of strings and delimited strings. The hash table of strings already
-- seen is the list of those strings, newest first. An allocated vector is the bytes of its strings
-- and the offsets of its pointers.
pub mod Split
pub mod Vector
mod Tests
use mathlib.Core.Bool.{◌||◌}
use sysvkit.Base.{
  ℕ, zero, suc, ◌+◌, Bool, true, false, not, ◌&&◌, List, [], ◌∷◌, ◌++◌, Bytes, bytes_eq, ◌==◌,
  if◌then◌else◌, length, ltb,
}

-- The delimiter that a 0 stands for.
unfoldable pub delimiter : ℕ → ℕ
delimiter delim = if delim == 0 then b':' else delim

-- hash_table_get
unfoldable pub seen_before : Bytes → List Bytes → Bool
seen_before s [] = false
seen_before s (t ∷ seen) = bytes_eq s t || seen_before s seen

-- The loop of strlist_from_delim: `elem` are the bytes from p to q, `str` those from q on. A repeated
-- element `continue`s before p is moved, so that the bytes before it stay part of the next one.
unfoldable pub from_delim : ℕ → Bool → Bool → List Bytes → Bytes → Bytes → List Bytes
from_delim d blank dedup seen elem [] =
    if not (blank || ltb 0 (length elem)) || (dedup && seen_before elem seen) then [] else elem ∷ []
from_delim d blank dedup seen elem (c ∷ str) =
    let longer = from_delim d blank dedup seen (elem ++ c ∷ []) str in
    let skipped = from_delim d blank dedup seen [] str in
    let kept = from_delim d blank dedup (elem ∷ seen) [] str in
    if not (c == d)
    then longer
    else if not (blank || ltb 0 (length elem))
    then skipped
    else if dedup && seen_before elem seen
    then longer
    else elem ∷ kept

unfoldable pub strlist_from_delim : Bytes → ℕ → Bool → Bool → List Bytes
strlist_from_delim str delim blank dedup = from_delim (delimiter delim) blank dedup [] [] str

-- The loop of strlist_to_delim: each string with a delimiter behind it.
unfoldable pub append_delim : ℕ → Bool → List Bytes → List Bytes → Bytes
append_delim d dedup seen [] = []
append_delim d dedup seen (s ∷ l) =
    let rest = append_delim d dedup (s ∷ seen) l in
    let skipped = append_delim d dedup seen l in
    if dedup && seen_before s seen then skipped else s ++ (d ∷ rest)

-- byte_array_resize to one byte less, where there is one.
abbrev pub drop_last : Bytes → Bytes
drop_last [] = []
drop_last (c ∷ []) = []
drop_last (c ∷ d ∷ s) = c ∷ drop_last (d ∷ s)

unfoldable pub strlist_to_delim : List Bytes → ℕ → Bool → Bytes
strlist_to_delim l delim dedup = drop_last (append_delim (delimiter delim) dedup [] l)

-- strlist_to_vector's first loop: the size of the strings, each with its NUL, and of the pointers,
-- without the NULL at the end; `word` is the size of a pointer.
unfoldable pub strings_size : List Bytes → ℕ
strings_size [] = 0
strings_size (s ∷ l) = length s + 1 + strings_size l

unfoldable pub pointers_size : ℕ → List Bytes → ℕ
pointers_size word [] = 0
pointers_size word (s ∷ l) = word + pointers_size word l

-- Its second loop, from the string area's offset `at` on: the pointers written, and the bytes.
unfoldable pub fill_vector : ℕ → List Bytes → List ℕ × Bytes
fill_vector at [] = ([], [])
fill_vector at (s ∷ l) =
    let (ptrs, bytes) = fill_vector (at + length s + 1) l in (at ∷ ptrs, s ++ (0 ∷ bytes))

-- The allocated unit: its size, the pointers as offsets into it (the NULL behind them is not listed),
-- the offset of the string area, and the bytes written there.
pub record StringVector : Type 0 where
  pub size : ℕ
  pub pointers : List ℕ
  pub area : ℕ
  pub bytes : Bytes

unfoldable pub strlist_to_vector : ℕ → List Bytes → StringVector
strlist_to_vector word l =
    let area = pointers_size word l + word in
    let filled = fill_vector area l in
    record { size = area + strings_size l; pointers = filled.0; area = area; bytes = filled.1 }
