-- ===== src/Procwatch/Lists.antt =====
-- Laws of the lists of pointers and of the table: what is in them behind an operation.
use sysvkit.Base.{
  ℕ, ◌≡◌, refl, ◌∙◌, true, false, ◌||◌, none, some, List, [], ◌∷◌, ◌++◌, ◌==◌, ==_iff,
  if◌then◌else◌, Bool-cases, inl, inr, arith,
}
use sysvkit.Procwatch.Store.{has, remove, get, put, pop}

-- No pointer stands twice in a list.
abbrev pub Nodup : List ℕ → Type 0
Nodup [] = Unit
Nodup (x ∷ xs) = (has x xs ≡ false) × Nodup xs

pub has-append : (a : ℕ) (xs ys : List ℕ) → has a (xs ++ ys) ≡ (has a xs || has a ys)
unfolding has
has-append a [] ys = refl
has-append a (x ∷ xs) ys = rw (has-append a xs ys) (ground arith)

pub has-singleton : (a x : ℕ) → has a (x ∷ []) ≡ (x == a)
unfolding has
has-singleton a x = ground arith

pub has-remove : (a b : ℕ) (xs : List ℕ) → has b (remove a xs) ≡ true → has b xs ≡ true
unfolding has remove
has-remove a b [] h = h
has-remove a b (x ∷ xs) h = ground (arith, has-remove a b xs)

pub has-remove_self : (a : ℕ) (xs : List ℕ) → Nodup xs → has a (remove a xs) ≡ false
unfolding has remove
has-remove_self a [] d = refl
has-remove_self a (x ∷ xs) (n, d) = elim (Bool-cases (x == a)) [
  | inl e ↦ rw e (rw (← (==_iff x a).0 e) n)
  | inr e ↦ rw (e, has) (rw e (has-remove_self a xs d))
]

pub has-remove_other : (a b : ℕ) (xs : List ℕ) → (a == b) ≡ false → has b (remove a xs) ≡ has b xs
unfolding has remove
has-remove_other a b [] h = refl
has-remove_other a b (x ∷ xs) h = ground (arith, has-remove_other a b xs h)

remove-absent : (a b : ℕ) (xs : List ℕ) → has b xs ≡ false → has b (remove a xs) ≡ false
remove-absent a b xs h = elim (Bool-cases (has b (remove a xs))) [
  | inl e ↦ cc (has-remove a b xs e)
  | inr e ↦ e
]

pub remove_absent : (a : ℕ) (xs : List ℕ) → has a xs ≡ false → remove a xs ≡ xs
unfolding has remove
remove_absent a [] h = refl
remove_absent a (x ∷ xs) h = ground (arith, remove_absent a xs)

pub remove-Nodup : (a : ℕ) (xs : List ℕ) → Nodup xs → Nodup (remove a xs)
unfolding remove
remove-Nodup a [] d = tt
remove-Nodup a (x ∷ xs) (n, d) = elim (Bool-cases (x == a)) [
  | inl e ↦ rw e d
  | inr e ↦ rw e (remove-absent a x xs n, remove-Nodup a xs d)
]

pub append-Nodup : (xs : List ℕ) (a : ℕ) → Nodup xs → has a xs ≡ false → Nodup (xs ++ (a ∷ []))
unfolding has
append-Nodup [] a d h = (refl, tt)
append-Nodup (x ∷ xs) a (n, d) h =
    (has-append x xs (a ∷ []) ∙ rw n (ground arith), append-Nodup xs a d (ground arith))

pub get-put :
    (p q a : ℕ) (t : List (ℕ × ℕ)) → get q (put p a t) ≡ (if p == q then some a else get q t)
unfolding get put
get-put p q a [] = refl
get-put p q a ((r, b) ∷ t) = ground (arith, get-put p q a t)

pub get-pop : (p q : ℕ) (t : List (ℕ × ℕ)) → get q (pop p t) ≡ (if p == q then none else get q t)
unfolding get pop
get-pop p q [] = ground arith
get-pop p q ((r, b) ∷ t) = ground (arith, get-pop p q t)
