-- ===== src/Timespan/Pieces.antt =====
-- A span as a list of magnitudes with units, and how timespan_to_str's loops run over them.
use mathlib.Core.Bool.{◌||◌}
use sysvkit.Base.{
  ℕ, suc, ◌+◌, ◌*◌, ◌/◌, ◌%◌, ◌≤◌, ◌<◌, ◌≡◌, refl, some, List, [], ◌∷◌, ◌++◌, Bytes, ltb, ◌==◌,
  if◌then◌else◌, decimal, arith, ◌⊎◌,
}
use sysvkit.Timespan.{TimespanUnit, Output, append_piece, seek, emit_units}

pub record Piece : Type 0 where
  pub num : ℕ
  pub unit : TimespanUnit

unfoldable pub piece_text : Piece → Bytes
piece_text p = decimal p.num ++ p.unit.name

unfoldable pub render : List Piece → Bytes
unfolding piece_text
render [] = []
render (p ∷ ps) = piece_text p ++ render ps

unfoldable pub total : List Piece → ℕ
total [] = 0
total (p ∷ ps) = p.num * p.unit.value + total ps

-- The greedy decomposition over units listed downwards, each as often as it fits.
unfoldable pub pieces : List TimespanUnit → ℕ → List Piece
pieces [] ts = []
pieces (u ∷ us) ts =
    if ltb ts u.value || ts == 0
    then pieces us ts
    else record { num = ts / u.value; unit = u } ∷ pieces us (ts % u.value)

-- Positive units, the last of which is the microsecond.
abbrev pub Descends : List TimespanUnit → Type 0
Descends [] = ⊥
Descends (u ∷ []) = u.value ≡ 1
Descends (u ∷ v ∷ us) = (0 < u.value) × Descends (v ∷ us)

pub pieces-zero : (us : List TimespanUnit) → pieces us 0 ≡ []
unfolding pieces
pieces-zero [] = refl
pieces-zero (u ∷ us) = ground (arith, pieces-zero us)

unfoldable pub append_pieces : Output → List Piece → Output
unfolding piece_text
append_pieces out [] = out
append_pieces out (p ∷ ps) = append_pieces (append_piece out (piece_text p)) ps

pub emit_units-zero :
    (f : ℕ) (us : List TimespanUnit) (out : Output) → emit_units (suc f) us 0 out ≡ some out
unfolding emit_units
emit_units-zero f us out = refl

-- Below the first unit's value the loop moves on to the next.
pub emit_units_skip :
    (f : ℕ) (u v : TimespanUnit) (us : List TimespanUnit) (ts : ℕ) (out : Output)
    → ts < u.value
    → emit_units (suc f) (u ∷ v ∷ us) ts out ≡ emit_units (suc f) (v ∷ us) ts out
unfolding emit_units seek
emit_units_skip f u v us ts out h = ground arith

pub pieces_skip :
    (u : TimespanUnit) (us : List TimespanUnit) (ts : ℕ)
    → ts < u.value
    → pieces (u ∷ us) ts ≡ pieces us ts
unfolding pieces
pieces_skip u us ts h = ground arith

pub mod_lt : (a b : ℕ) → 0 < b → a % b < b
mod_lt a b h = omega arith

pub emit_units_take :
    (f : ℕ) (u v : TimespanUnit) (us : List TimespanUnit) (ts : ℕ) (out : Output)
    → u.value ≤ ts
    → 0 < ts
    → emit_units (suc f) (u ∷ v ∷ us) ts out
      ≡ emit_units f
          (u ∷ v ∷ us)
          (ts % u.value)
          (append_piece out (decimal (ts / u.value) ++ u.name))
unfolding emit_units seek
emit_units_take f u v us ts out h p = ground arith

pub emit_units_last :
    (f : ℕ) (u : TimespanUnit) (ts : ℕ) (out : Output)
    → 0 < ts
    → u.value ≡ 1
    → emit_units (suc (suc f)) (u ∷ []) ts out
      ≡ some (append_piece out (decimal (ts / u.value) ++ u.name))
unfolding emit_units seek
emit_units_last f u ts out h one = ground (arith, one)

pub pieces_last :
    (u : TimespanUnit) (ts : ℕ)
    → 0 < ts
    → u.value ≡ 1
    → pieces (u ∷ []) ts ≡ record { num = ts / u.value; unit = u } ∷ []
unfolding pieces
pieces_last u ts h one = ground arith

pub pieces_take :
    (u : TimespanUnit) (us : List TimespanUnit) (ts : ℕ)
    → u.value ≤ ts
    → 0 < ts
    → pieces (u ∷ us) ts ≡ record { num = ts / u.value; unit = u } ∷ pieces us (ts % u.value)
unfolding pieces
pieces_take u us ts h p = ground arith

pub le_or_lt : (a b : ℕ) → (a < b) ⊎ (b ≤ a)
le_or_lt a b = grind arith
