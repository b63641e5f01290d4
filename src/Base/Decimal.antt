-- ===== src/Base/Decimal.antt =====
-- printf's %llu and the digits that strtoumax reads: decimal print, its value, the round trip.
use sysvkit.Base.Tests.{ltb, if◌then◌else◌}
use sysvkit.Base.Lists.{All}
use sysvkit.Base.Strings.{Bytes, IsDigit}
use Prim.Native.Nat.{ℕ, zero, suc, ◌+◌, ◌-◌, ◌*◌, ◌/◌, ◌%◌, ◌<◌}
use mathlib.Core.Path.{◌≡◌, refl}
use mathlib.Core.Bool.{Bool, true, false}
use mathlib.Core.List.{[], ◌∷◌}
use native.Mathlib.Omega.{arith}

-- The digits of `n` in front of `out`. A number has fewer digits than the fuel `suc n`.
unfoldable pub digits : ℕ → ℕ → Bytes → Bytes
digits zero n out = out
digits (suc f) n out =
    let more = digits f (n / 10) ((b'0' + n % 10) ∷ out) in
    if ltb n 10 then (b'0' + n) ∷ out else more

unfoldable pub decimal : ℕ → Bytes
unfolding digits
decimal n = digits (suc n) n []

-- The number that digits spell behind `n`.
unfoldable pub value_from : ℕ → Bytes → ℕ
value_from n [] = n
value_from n (c ∷ s) = value_from (n * 10 + (c - b'0')) s

value_from-digits :
    (f n : ℕ) (out : Bytes) → n < f → value_from 0 (digits f n out) ≡ value_from n out
unfolding digits value_from
value_from-digits zero n out h = absurd (omega arith)
value_from-digits (suc f) n out h =
    ground (arith, value_from-digits f (n / 10) ((b'0' + n % 10) ∷ out))

pub value_from-decimal : (n : ℕ) → value_from 0 (decimal n) ≡ n
unfolding decimal value_from
value_from-decimal n = value_from-digits (suc n) n [] (omega arith)

All-digits : (f n : ℕ) (out : Bytes) → n < f → All IsDigit out → All IsDigit (digits f n out)
unfolding digits
All-digits zero n out h a = a
All-digits (suc f) n out h a = ground (arith, All-digits f (n / 10) ((b'0' + n % 10) ∷ out))

pub All-decimal : (n : ℕ) → All IsDigit (decimal n)
unfolding decimal
All-decimal n = All-digits (suc n) n [] (omega arith) tt

digits-cons :
    (f n : ℕ) (c : ℕ) (out : Bytes) → (d : ℕ) × (s : Bytes) × (digits f n (c ∷ out) ≡ d ∷ s)
unfolding digits
digits-cons zero n c out = (c, out, refl)
digits-cons (suc f) n c out = pick (ltb n 10) (digits-cons f (n / 10) (b'0' + n % 10) (c ∷ out))
  where
    pick :
        (b : Bool)
        → (d : ℕ) × (s : Bytes) × (digits f (n / 10) ((b'0' + n % 10) ∷ c ∷ out) ≡ d ∷ s)
        → (d : ℕ) × (s : Bytes) × ((if b
              then (b'0' + n) ∷ c ∷ out
              else digits f (n / 10) ((b'0' + n % 10) ∷ c ∷ out))
            ≡ d ∷ s)
    pick true _ = (b'0' + n, c ∷ out, refl)
    pick false r = r

-- A decimal print has at least one digit.
pub decimal-cons : (n : ℕ) → (d : ℕ) × (s : Bytes) × (decimal n ≡ d ∷ s)
unfolding decimal digits
decimal-cons n = pick (ltb n 10) (digits-cons n (n / 10) (b'0' + n % 10) [])
  where
    pick :
        (b : Bool)
        → (d : ℕ) × (s : Bytes) × (digits n (n / 10) ((b'0' + n % 10) ∷ []) ≡ d ∷ s)
        → (d : ℕ) × (s : Bytes) × ((if b
              then (b'0' + n) ∷ []
              else digits n (n / 10) ((b'0' + n % 10) ∷ []))
            ≡ d ∷ s)
    pick true _ = (b'0' + n, [], refl)
    pick false r = r
