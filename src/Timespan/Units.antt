-- ===== src/Timespan/Units.antt =====
-- The units of the table and the greedy decomposition of a span into them.
use mathlib.Core.Bool.{◌||◌}
use native.Mathlib.Nat.{div-add-mod'}
use sysvkit.Base.{
  ℕ, zero, suc, ◌+◌, ◌*◌, ◌/◌, ◌%◌, ◌≤◌, ◌<◌, ◌≡◌, refl, ap, ◌∙◌, ◌≢◌, Bool, true, false, ◌&&◌,
  Option, none, some, List, [], ◌∷◌, Bytes, bytes_eq, length, ltb, ◌==◌, All, ltb→lt, and_parts,
  is_alpha, arith, inl, inr, Bool-cases,
}
use sysvkit.Timespan.{
  TimespanUnit, timespan_units, descending, ts_invalid, find_unit, timespan_loop, value,
}
use sysvkit.Timespan.Pieces.{
  Piece, pieces, render, total, Descends, le_or_lt, pieces_skip, pieces_take, pieces_last,
  pieces-zero,
}
use sysvkit.Timespan.Parse.{IsUnit, ArePieces, loop_piece, render-Stops}

pub loop_render :
    (ps : List Piece) (f errno ts : ℕ)
    → ArePieces ps
    → length ps ≤ f
    → ts + total ps < ts_invalid
    → timespan_loop f errno (render ps) ts ≡ value (ts + total ps)
unfolding render total
loop_render [] f errno ts u h fits =
    let same : ts + 0 ≡ ts = omega arith in rw same (unfold timespan_loop in refl)
loop_render (p ∷ ps) zero errno ts u h fits = absurd (omega arith)
loop_render (p ∷ ps) (suc f) errno ts (u, us) h fits =
    let (sa, sb) = render-Stops ps in
    let m = p.num * p.unit.value in
    let same : ts + m + total ps ≡ ts + (m + total ps) = omega arith in
    loop_piece f errno p (render ps) ts u sa sb (omega arith)
    ∙ loop_render ps f errno (ts + m) us (omega arith) (omega arith)
    ∙ ap value same

total_cons :
    (u : TimespanUnit) (ts : ℕ) (ps : List Piece)
    → total ps ≡ ts % u.value
    → total (record { num = ts / u.value; unit = u } ∷ ps) ≡ ts
unfolding total
total_cons u ts ps h = rw h (div-add-mod' ts u.value)

-- The greedy decomposition is exact.
pub total-pieces : (us : List TimespanUnit) (ts : ℕ) → Descends us → total (pieces us ts) ≡ ts
total-pieces us zero d = rw (pieces-zero us) (unfold total in refl)
total-pieces [] (suc t) d = absurd d
total-pieces (u ∷ []) (suc t) d =
    rw (pieces_last u (suc t) (omega arith) d) (unfold total in rw d (omega arith))
total-pieces (u ∷ v ∷ us) (suc t) d = elim (le_or_lt (suc t) u.value) [
  | inl below ↦ rw (pieces_skip u (v ∷ us) (suc t) below) (total-pieces (v ∷ us) (suc t) d.1)
  | inr above ↦ rw (pieces_take u (v ∷ us) (suc t) above (omega arith)) (
      total_cons u (suc t) (pieces (v ∷ us) (suc t % u.value))
        (total-pieces (v ∷ us) (suc t % u.value) d.1))
]

pub pieces-All : (us : List TimespanUnit) (ts : ℕ) → All IsUnit us → ArePieces (pieces us ts)
unfolding pieces
pieces-All [] ts a = tt
pieces-All (u ∷ us) ts (a, rest) = elim (Bool-cases (ltb ts u.value || ts == 0)) [
  | inl skips ↦ rw skips (pieces-All us ts rest)
  | inr takes ↦ rw takes (a, pieces-All us (ts % u.value) rest)
]

-- The table lists no unit twice, and its names are words.
all_letters : Bytes → Bool
all_letters [] = true
all_letters (c ∷ s) = is_alpha c && all_letters s

all_letters_sound : (s : Bytes) → all_letters s ≡ true → All (λ c. is_alpha c ≡ true) s
unfolding all_letters
all_letters_sound [] h = tt
all_letters_sound (c ∷ s) h = (ground arith, all_letters_sound s (ground arith))

is_word : Bytes → Bool
unfolding all_letters
is_word [] = false
is_word (c ∷ s) = all_letters (c ∷ s)

is_word_sound : (s : Bytes) → is_word s ≡ true → All (λ c. is_alpha c ≡ true) s × (s ≢ [])
unfolding is_word
is_word_sound [] h = cc
is_word_sound (c ∷ s) h = (all_letters_sound (c ∷ s) h, λ e. cc)

has_value : Option ℕ → ℕ → Bool
has_value none v = false
has_value (some w) v = w == v

has_value_sound : (o : Option ℕ) (v : ℕ) → has_value o v ≡ true → o ≡ some v
unfolding has_value
has_value_sound o v h = ground arith

are_units : List TimespanUnit → Bool
unfolding find_unit bytes_eq timespan_units has_value is_word
are_units [] = true
are_units (u ∷ us) =
    has_value (find_unit u.name timespan_units) u.value
    && (is_word u.name && (ltb 0 u.value && are_units us))

are_units_sound : (us : List TimespanUnit) → are_units us ≡ true → All IsUnit us
unfolding are_units
are_units_sound [] h = tt
are_units_sound (u ∷ us) h =
    let (has, h₁) = and_parts (has_value (find_unit u.name timespan_units) u.value) _ h in
    let (word, h₂) = and_parts (is_word u.name) _ h₁ in
    let (pos, more) = and_parts (ltb 0 u.value) (are_units us) h₂ in
    let (letters, named) = is_word_sound u.name word in
    (
      record {
        found = has_value_sound _ u.value has;
        letters = letters;
        named = named;
        positive = ltb→lt 0 u.value pos;
      },
      are_units_sound us more,
    )

pub descending-IsUnit : All IsUnit descending
unfolding are_units descending
descending-IsUnit = are_units_sound descending refl
