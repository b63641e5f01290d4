-- ===== src/Monitor/Limit/Ring.antt =====
-- Writing in a ring of times, as a list operation.
use sysvkit.Base.{
  ℕ, zero, suc, ◌+◌, ◌%◌, ◌<◌, ◌≡◌, refl, ap, ◌∙◌, sym, List, [], ◌∷◌, ◌++◌, append-nil, length,
  length-set, take, drop, set, get_or, arith, ◌⊎◌, inl, inr,
}

-- Writing at the cursor and moving it drops the oldest time and adds the new one at the end.
pub drop_at : (ts : List ℕ) (c : ℕ) → c < length ts → drop c ts ≡ get_or ts c 0 ∷ drop (suc c) ts
drop_at [] c h = absurd (omega arith)
drop_at (t ∷ ts) zero h = refl
drop_at (t ∷ ts) (suc c) h = drop_at ts c (omega arith)

drop-set : (ts : List ℕ) (c v : ℕ) → drop (suc c) (set ts c v) ≡ drop (suc c) ts
drop-set [] c v = refl
drop-set (t ∷ ts) zero v = refl
drop-set (t ∷ ts) (suc c) v = drop-set ts c v

take-set : (ts : List ℕ) (c v : ℕ) → c < length ts → take (suc c) (set ts c v) ≡ take c ts ++ v ∷ []
take-set [] c v h = absurd (omega arith)
take-set (t ∷ ts) zero v h = refl
take-set (t ∷ ts) (suc c) v h = ap (◌∷◌ t) (take-set ts c v (omega arith))

take-length : (ts : List ℕ) (n : ℕ) → n ≡ length ts → take n ts ≡ ts
take-length [] zero h = refl
take-length [] (suc n) h = refl
take-length (t ∷ ts) zero h = absurd (omega arith)
take-length (t ∷ ts) (suc n) h = ap (◌∷◌ t) (take-length ts n (omega arith))

drop-length : (ts : List ℕ) (n : ℕ) → n ≡ length ts → drop n ts ≡ []
drop-length [] zero h = refl
drop-length [] (suc n) h = refl
drop-length (t ∷ ts) zero h = absurd (omega arith)
drop-length (t ∷ ts) (suc n) h = drop-length ts n (omega arith)

pub rotate :
    (ts : List ℕ) (c v : ℕ)
    → c < length ts
    → drop ((c + 1) % length ts) (set ts c v) ++ take ((c + 1) % length ts) (set ts c v)
      ≡ drop (suc c) ts ++ (take c ts ++ v ∷ [])
rotate ts c v h = elim last_or_not [
  | inl (last, here) ↦
      rw (here, append-nil (set ts c v), drop-length ts (suc c) last)
        (sym (take-length (set ts c v) (suc c) (last ∙ sym (length-set ts c v)))
          ∙ take-set ts c v h)
  | inr next ↦ rw (next, drop-set ts c v, take-set ts c v h)
]
  where
    last_or_not : ((suc c ≡ length ts) × ((c + 1) % length ts ≡ 0)) ⊎ ((c + 1) % length ts ≡ suc c)
    last_or_not = grind arith
