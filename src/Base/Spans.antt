-- ===== src/Base/Spans.antt =====
-- Laws of `span`, `take` and byte tests over concatenations.
use sysvkit.Base.Lists.{All, length, take}
use sysvkit.Base.Strings.{Bytes, span}
use Prim.Native.Nat.{ℕ, zero, suc, ◌-◌, ◌≤◌}
use mathlib.Core.Path.{◌≡◌, refl, ap}
use mathlib.Core.Bool.{Bool, true, false}
use mathlib.Core.List.{List, [], ◌∷◌, ◌++◌}
use native.Mathlib.Omega.{arith}

module _ (ok : ℕ → Bool) where
  -- The rest begins with no accepted byte.
  abbrev pub Stops : Bytes → Type 0
  Stops [] = Unit
  Stops (c ∷ s) = ok c ≡ false

  pub span-append :
      (s rest : Bytes) → All (λ c. ok c ≡ true) s → Stops rest → span ok (s ++ rest) ≡ (s, rest)
  unfolding span
  span-append [] [] h st = refl
  span-append [] (c ∷ rest) h st = rw st
  span-append (c ∷ s) rest (hc, hs) st = rw (span-append s rest hs st) (rw hc)

module _ {ℓ} {A : Type ℓ} where
  pub take-append :
      (n : ℕ) (xs ys : List A) → take n (xs ++ ys) ≡ take n xs ++ take (n - length xs) ys
  take-append zero xs ys = ground arith
  take-append (suc n) [] ys = ground arith
  take-append (suc n) (x ∷ xs) ys = ground (arith, take-append n xs ys)

  pub take_all : (n : ℕ) (xs : List A) → length xs ≤ n → take n xs ≡ xs
  take_all zero [] h = refl
  take_all zero (x ∷ xs) h = absurd (omega arith)
  take_all (suc n) [] h = refl
  take_all (suc n) (x ∷ xs) h = ap (◌∷◌ x) (take_all n xs (omega arith))
