-- ===== src/Table.antt =====
-- The hash tables of fsdyn, as an interface: strings to values. What unit.c and environment.c rely on
-- are the laws. An association list shows that the laws can hold.
pub mod Assoc
use sysvkit.Base.{
  ℕ, ◌≡◌, Bool, true, false, Option, none, some, List, [], ◌∷◌, Bytes, bytes_eq, if◌then◌else◌,
}

module _ {V : Type 0} where
  -- The value of a key in a list of entries.
  unfoldable pub lookup : Bytes → List (Bytes × V) → Option V
  lookup k [] = none
  lookup k ((j, v) ∷ es) = if bytes_eq j k then some v else lookup k es

  -- No key stands twice.
  abbrev pub Distinct : List (Bytes × V) → Type 0
  Distinct [] = Unit
  Distinct ((k, v) ∷ es) = (lookup k es ≡ none) × Distinct es

-- `entries` is the order of hash_table_get_any and hash_table_get_other; `put` replaces.
pub record HashTable : Type 1 where
  pub Table : Type 0 → Type 0
  pub make : (V : Type 0) → Table V
  pub get : (V : Type 0) → Bytes → Table V → Option V
  pub put : (V : Type 0) → Bytes → V → Table V → Table V
  pub pop : (V : Type 0) → Bytes → Table V → Table V
  pub entries : (V : Type 0) → Table V → List (Bytes × V)
  pub get-make : (V : Type 0) (k : Bytes) → get V k (make V) ≡ none
  pub get-put :
      (V : Type 0) (j k : Bytes) (v : V) (t : Table V)
      → get V j (put V k v t) ≡ (if bytes_eq k j then some v else get V j t)
  pub get-pop :
      (V : Type 0) (j k : Bytes) (t : Table V)
      → get V j (pop V k t) ≡ (if bytes_eq k j then none else get V j t)
  pub lookup-entries : (V : Type 0) (k : Bytes) (t : Table V) → lookup k (entries V t) ≡ get V k t
  pub entries-Distinct : (V : Type 0) (t : Table V) → Distinct (entries V t)
