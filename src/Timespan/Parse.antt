-- ===== src/Timespan/Parse.antt =====
-- The main loop of timespan_from_str over magnitudes with units.
use sysvkit.Base.{
  ℕ, suc, ◌+◌, ◌-◌, ◌*◌, ◌%◌, ◌^◌, ◌<◌, ◌≡◌, refl, ◌≢◌, true, false, some, List, [], ◌∷◌, ◌++◌,
  append_assoc, Bytes, leb, ◌==◌, span, span-append, Stops, All, decimal, decimal-cons, All-decimal,
  value_from-decimal, IsDigit, is_digit, is_alpha, arith,
}
use sysvkit.Timespan.{
  TimespanUnit, timespan_units, ts_invalid, uintmax_max, is_blank, skip_blanks, strtoumax,
  find_unit, timespan_loop,
}
use sysvkit.Timespan.Pieces.{Piece, piece_text, render}

-- A unit that the table finds under its own name, which is one or more letters.
pub record IsUnit (u : TimespanUnit) : Type 0 where
  pub found : find_unit u.name timespan_units ≡ some u.value
  pub letters : All (λ c. is_alpha c ≡ true) u.name
  pub named : u.name ≢ []
  pub positive : 0 < u.value

abbrev pub ArePieces : List Piece → Type 0
ArePieces = All (λ p. IsUnit p.unit)

pub strtoumax-decimal :
    (n : ℕ) (rest : Bytes)
    → n < uintmax_max
    → Stops is_digit rest
    → strtoumax (decimal n ++ rest) ≡ (n, rest, false)
unfolding strtoumax
strtoumax-decimal n rest h st =
    rw
      (
        span-append is_digit (decimal n) rest (accepted (decimal n) (All-decimal n)) st,
        value_from-decimal n,
      )
      (ground arith)
  where
    accepted : (s : Bytes) → All IsDigit s → All (λ c. is_digit c ≡ true) s
    accepted [] _ = tt
    accepted (c ∷ s) (h, hs) = (ground arith, accepted s hs)

pub skip_blanks-Stops : (s : Bytes) → Stops is_blank s → skip_blanks s ≡ s
unfolding skip_blanks
skip_blanks-Stops [] h = refl
skip_blanks-Stops (c ∷ s) h = rw h

-- Letters stop the reading of digits and of blanks.
pub letter-Stops :
    (name rest : Bytes)
    → All (λ c. is_alpha c ≡ true) name
    → name ≢ []
    → Stops is_digit (name ++ rest) × Stops is_blank (name ++ rest)
letter-Stops [] rest a h = absurd (h refl)
letter-Stops (c ∷ s) rest (a, _) h = (ground arith, ground arith)

digit-Stops :
    (s : Bytes) (rest : Bytes)
    → All IsDigit s
    → s ≢ []
    → Stops is_alpha (s ++ rest) × Stops is_blank (s ++ rest)
digit-Stops [] rest a h = absurd (h refl)
digit-Stops (c ∷ s) rest (a, _) h = (ground arith, ground arith)

pub decimal-ne-nil : (n : ℕ) → decimal n ≢ []
decimal-ne-nil n e = let (d, s, p) = decimal-cons n in cc

-- A text of pieces starts with a digit, if with anything.
pub render-Stops : (ps : List Piece) → Stops is_alpha (render ps) × Stops is_blank (render ps)
unfolding render
render-Stops [] = (tt, tt)
render-Stops (p ∷ ps) = rw (append_assoc (decimal p.num) p.unit.name (render ps)) (
    digit-Stops (decimal p.num) (p.unit.name ++ render ps) (All-decimal p.num)
      (decimal-ne-nil p.num))

pub lt_ne : (a b : ℕ) → a < b → (a == b) ≡ false
lt_ne a b h = ground arith

fits_leb : (ts m max : ℕ) → ts + m < max → leb (max - ts) m ≡ false
fits_leb ts m max h = ground arith

loop_cons :
    (f errno n : ℕ) (d : ℕ) (s q r name : Bytes) (v ts : ℕ)
    → is_digit d ≡ true
    → strtoumax (d ∷ s) ≡ (n, q, false)
    → n < uintmax_max
    → skip_blanks q ≡ q
    → span is_alpha q ≡ (name, r)
    → find_unit name timespan_units ≡ some v
    → skip_blanks r ≡ r
    → ts + n * v < ts_invalid
    → timespan_loop (suc f) errno (d ∷ s) ts ≡ timespan_loop f errno r (ts + n * v)
unfolding timespan_loop
loop_cons f errno n d s q r name v ts hd num small sq sp found sr fits =
    let whole : n * v % 2 ^ 64 ≡ n * v = omega arith in
    rw (hd, num, sq, sp, found)
      (rw (lt_ne n uintmax_max small, num, sq, sp, sr, whole, fits_leb ts (n * v) ts_invalid fits))

-- One piece is read off the front of the text and added.
pub loop_piece :
    (f errno : ℕ) (p : Piece) (rest : Bytes) (ts : ℕ)
    → IsUnit p.unit
    → Stops is_alpha rest
    → Stops is_blank rest
    → ts + p.num * p.unit.value < ts_invalid
    → timespan_loop (suc f) errno (piece_text p ++ rest) ts
      ≡ timespan_loop f errno rest (ts + p.num * p.unit.value)
unfolding piece_text
loop_piece f errno p rest ts u sa sb fits =
    let n = p.num in
    let name = p.unit.name in
    let small : n < uintmax_max = grind (arith, u.positive) in
    let (sd, sn) = letter-Stops name rest u.letters u.named in
    let (d, s, e) = decimal-cons n in
    let read : strtoumax (d ∷ (s ++ (name ++ rest))) ≡ (n, name ++ rest, false) =
      rw e at (strtoumax-decimal n (name ++ rest) small sd) in
    let dig : IsDigit d = (rw e at (All-decimal n)).0 in
    rw (append_assoc (decimal n) name rest, e)
      (loop_cons f errno n d (s ++ (name ++ rest)) (name ++ rest) rest name p.unit.value ts
        (ground arith) read small (skip_blanks-Stops (name ++ rest) sn)
        (span-append is_alpha name rest u.letters sa) u.found (skip_blanks-Stops rest sb) fits)
