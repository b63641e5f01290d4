-- ===== src/Table/Assoc.antt =====
-- Association lists as hash tables.
use sysvkit.Base.{
  ◌≡◌, refl, ap, ◌∙◌, true, false, none, some, List, [], ◌∷◌, Bytes, bytes_eq, bytes_eq_sound,
  if◌then◌else◌, Bool-cases, inl, inr, arith, subst,
}
use sysvkit.Table.{lookup, Distinct, HashTable}

-- Two keys that are equal compare alike with any other.
bytes_eq-same : (a b c : Bytes) → bytes_eq a b ≡ true → bytes_eq a c ≡ bytes_eq b c
bytes_eq-same a b c h = ap (λ x. bytes_eq x c) (bytes_eq_sound a b h)

pub bytes_eq_comm : (a b : Bytes) → bytes_eq a b ≡ bytes_eq b a
unfolding bytes_eq
bytes_eq_comm [] [] = refl
bytes_eq_comm [] (b ∷ t) = refl
bytes_eq_comm (a ∷ s) [] = refl
bytes_eq_comm (a ∷ s) (b ∷ t) = rw (bytes_eq_comm s t) (ground arith)

bytes_eq_other : (a b c : Bytes) → bytes_eq a b ≡ false → bytes_eq a c ≡ true → bytes_eq b c ≡ false
bytes_eq_other a b c n e =
    subst (λ x. bytes_eq b x ≡ false) (bytes_eq_sound a c e) (bytes_eq_comm b a ∙ n)

module _ {V : Type 0} where
  abbrev pub insert : Bytes → V → List (Bytes × V) → List (Bytes × V)
  insert k v [] = (k, v) ∷ []
  insert k v ((j, w) ∷ es) = if bytes_eq j k then (k, v) ∷ es else (j, w) ∷ insert k v es

  abbrev pub remove : Bytes → List (Bytes × V) → List (Bytes × V)
  remove k [] = []
  remove k ((j, w) ∷ es) = if bytes_eq j k then remove k es else (j, w) ∷ remove k es

  pub lookup-insert :
      (j k : Bytes) (v : V) (es : List (Bytes × V))
      → lookup j (insert k v es) ≡ (if bytes_eq k j then some v else lookup j es)
  unfolding lookup
  lookup-insert j k v [] = refl
  lookup-insert j k v ((i, w) ∷ es) = elim (Bool-cases (bytes_eq i k)) [
    | inl e ↦ rw (e, bytes_eq-same i k j e) (ground arith)
    | inr e ↦ rw (e, lookup-insert j k v es) (ground (arith, bytes_eq_other i k j e))
  ]

  pub lookup-remove :
      (j k : Bytes) (es : List (Bytes × V))
      → lookup j (remove k es) ≡ (if bytes_eq k j then none else lookup j es)
  unfolding lookup
  lookup-remove j k [] = ground arith
  lookup-remove j k ((i, w) ∷ es) = elim (Bool-cases (bytes_eq i k)) [
    | inl e ↦ rw (e, bytes_eq-same i k j e) (lookup-remove j k es ∙ ground arith)
    | inr e ↦ rw (e, lookup-remove j k es) (ground (arith, bytes_eq_other i k j e))
  ]

  absent-insert :
      (j k : Bytes) (v : V) (es : List (Bytes × V))
      → bytes_eq k j ≡ false
      → lookup j es ≡ none
      → lookup j (insert k v es) ≡ none
  absent-insert j k v es h n = lookup-insert j k v es ∙ rw (h) n

  pub insert-Distinct :
      (k : Bytes) (v : V) (es : List (Bytes × V)) → Distinct es → Distinct (insert k v es)
  insert-Distinct k v [] d = (unfold lookup in refl, tt)
  insert-Distinct k v ((i, w) ∷ es) (n, d) = elim (Bool-cases (bytes_eq i k)) [
    | inl e ↦ rw (e) (subst (λ x. lookup x es ≡ none) (bytes_eq_sound i k e) n, d)
    | inr e ↦ rw (e) (absent-insert i k v es (bytes_eq_comm k i ∙ e) n, insert-Distinct k v es d)
  ]

  pub remove-Distinct : (k : Bytes) (es : List (Bytes × V)) → Distinct es → Distinct (remove k es)
  remove-Distinct k [] d = tt
  remove-Distinct k ((i, w) ∷ es) (n, d) = elim (Bool-cases (bytes_eq i k)) [
    | inl e ↦ rw (e) (remove-Distinct k es d)
    | inr e ↦ rw (e) (lookup-remove i k es ∙ rw (bytes_eq_comm k i, e) n, remove-Distinct k es d)
  ]

-- The hash tables of the tests: association lists in which no key stands twice.
unfoldable pub assoc : HashTable
unfolding lookup
assoc = record {
  Table = λ V. (es : List (Bytes × V)) × Distinct es;
  make = λ V. ([], tt);
  get = λ V k t. lookup k t.0;
  put = λ V k v t. (insert k v t.0, insert-Distinct k v t.0 t.1);
  pop = λ V k t. (remove k t.0, remove-Distinct k t.0 t.1);
  entries = λ V t. t.0;
  get-make = λ V k. refl;
  get-put = λ V j k v t. lookup-insert j k v t.0;
  get-pop = λ V j k t. lookup-remove j k t.0;
  lookup-entries = λ V k t. refl;
  entries-Distinct = λ V t. t.1;
}
