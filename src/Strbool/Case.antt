-- ===== src/Strbool/Case.antt =====
-- strbool and the case of letters.
use sysvkit.Base.{ℕ, ◌<◌, ◌≡◌, refl, some, [], ◌∷◌, Bytes, codes, bytes_eq, ◌==◌, arith}
use sysvkit.Strbool.{lower_byte, lower, case_eq, strbool}

lower_byte_twice : (c : ℕ) → lower_byte (lower_byte c) ≡ lower_byte c
unfolding lower_byte
lower_byte_twice c = ground arith

lower_twice : (s : Bytes) → lower (lower s) ≡ lower s
unfolding lower
lower_twice [] = refl
lower_twice (c ∷ s) = rw (lower_byte_twice c, lower_twice s) refl

lower_byte_digit : (c d : ℕ) → d < b'A' → (lower_byte c == d) ≡ (c == d)
unfolding lower_byte
lower_byte_digit c d h = ground arith

digit_alone : (s : Bytes) (d : ℕ) → d < b'A' → bytes_eq (lower s) (d ∷ []) ≡ bytes_eq s (d ∷ [])
unfolding lower bytes_eq
digit_alone [] d h = refl
digit_alone (c ∷ []) d h = rw (lower_byte_digit c d h) refl
digit_alone (c ∷ e ∷ s) d h = rw (lower_byte_digit c d h) refl

-- A string means the same as it does in lower case, unless the lower case is "no": that word is
-- known in lower case alone.
pub strbool-lower :
    (s : Bytes)
    → bytes_eq (lower s) (codes "no") ≡ bytes_eq s (codes "no")
    → strbool (some (lower s)) ≡ strbool (some s)
unfolding strbool case_eq
strbool-lower s h =
    rw (lower_twice s, digit_alone s b'1' (omega arith), digit_alone s b'0' (omega arith), h) refl
