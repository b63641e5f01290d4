-- ===== src/Timespan/RoundTrip.antt =====
-- timespan_from_str on the texts that timespan_to_str prints.
use sysvkit.Base.{
  ℕ, suc, ◌+◌, ◌-◌, ◌≤◌, ◌<◌, ◌≡◌, refl, ap, ◌∙◌, sym, ◌≢◌, true, false, List, [], ◌∷◌, ◌++◌,
  append_assoc, Bytes, codes, bytes_eq, length, length-append, take_all, ◌==◌, span, All,
  All-append, decimal, decimal-cons, All-decimal, IsDigit, value_from, is_digit, is_alpha, arith,
  inl, inr, Bool-cases,
}
use sysvkit.Timespan.{
  TimespanUnit, descending, infinity_str, ts_invalid, ts_infinity, uintmax_max, is_blank,
  skip_blanks, scan_end, strtoumax, start_over, from_trimmed, timespan_from_str, timespan_to_str,
  value, printed,
}
use sysvkit.Timespan.Print.{descending-Descends, span_text, timespan_to_str-span_text}
use sysvkit.Timespan.Pieces.{Piece, piece_text, pieces, render, total, Descends}
use sysvkit.Timespan.Parse.{ArePieces, skip_blanks-Stops, strtoumax-decimal, letter-Stops, lt_ne}
use sysvkit.Timespan.Units.{loop_render, total-pieces, pieces-All, descending-IsUnit}

-- Printed spans are read over: digits and letters are no blanks.
abbrev pub NoBlanks : Bytes → Type 0
NoBlanks = All (λ c. is_blank c ≡ false)

scan_end-NoBlanks : (s : Bytes) (i : ℕ) → NoBlanks s → scan_end s i i ≡ i + length s
unfolding scan_end
scan_end-NoBlanks [] i h = omega arith
scan_end-NoBlanks (c ∷ s) i (h, hs) = rw h (omega (arith, scan_end-NoBlanks s (suc i) hs))

pub digits-NoBlanks : (s : Bytes) → All IsDigit s → NoBlanks s
digits-NoBlanks [] h = tt
digits-NoBlanks (c ∷ s) (h, hs) = (ground arith, digits-NoBlanks s hs)

letters-NoBlanks : (s : Bytes) → All (λ c. is_alpha c ≡ true) s → NoBlanks s
letters-NoBlanks [] h = tt
letters-NoBlanks (c ∷ s) (h, hs) = (ground arith, letters-NoBlanks s hs)

render-NoBlanks : (ps : List Piece) → ArePieces ps → NoBlanks (render ps)
unfolding render piece_text
render-NoBlanks [] h = tt
render-NoBlanks (p ∷ ps) (u, us) =
    All-append _ (piece_text p) (render ps)
      (All-append _ (decimal p.num) p.unit.name (digits-NoBlanks _ (All-decimal p.num))
        (letters-NoBlanks p.unit.name u.letters))
      (render-NoBlanks ps us)

length-render : (ps : List Piece) → length ps ≤ length (render ps)
unfolding render piece_text
length-render [] = omega arith
length-render (p ∷ ps) =
    let (d, s, e) = decimal-cons p.num in
    rw e (
      omega (
        arith,
        length-render ps,
        length-append s p.unit.name,
        length-append (s ++ p.unit.name) (render ps),
      ))

-- Digits with letters behind them are no unitless number.
from_trimmed_units :
    (errno n : ℕ) (c : ℕ) (s q text : Bytes) (d : ℕ) (r : Bytes)
    → is_digit c ≡ true
    → strtoumax (c ∷ s) ≡ (n, q, false)
    → n < uintmax_max
    → skip_blanks q ≡ d ∷ r
    → from_trimmed errno (c ∷ s) text ≡ start_over errno text
unfolding from_trimmed
from_trimmed_units errno n c s q text d r hd num small sq =
    rw (hd, num) (rw (lt_ne n uintmax_max small, sq) (rw num))

pub trimmed :
    (errno : ℕ) (c : ℕ) (s : Bytes)
    → NoBlanks (c ∷ s)
    → is_digit c ≡ true
    → timespan_from_str errno (c ∷ s) ≡ from_trimmed errno (c ∷ s) (c ∷ s)
unfolding timespan_from_str
trimmed errno c s h d =
    let kept : skip_blanks (c ∷ s) ≡ c ∷ s = skip_blanks-Stops (c ∷ s) h.0 in
    let end : scan_end (c ∷ s) 0 0 ≡ suc (length s) =
      omega (arith, scan_end-NoBlanks (c ∷ s) 0 h) in
    rw (kept, end, take_all (suc (length s)) (c ∷ s) (omega arith), not_infinity c s d)
      (ground arith)
  where
    not_infinity : (x : ℕ) (t : Bytes) → is_digit x ≡ true → bytes_eq (x ∷ t) infinity_str ≡ false
    not_infinity x t dig = unfold bytes_eq in ground arith

cons_of_ne : (s : Bytes) → s ≢ [] → (c : ℕ) × (t : Bytes) × (s ≡ c ∷ t)
cons_of_ne [] h = absurd (h refl)
cons_of_ne (c ∷ t) h = (c, t, refl)

num-le-total : (p : Piece) (ps : List Piece) → 0 < p.unit.value → p.num ≤ total (p ∷ ps)
unfolding total
num-le-total p ps h = grind arith

over :
    (errno : ℕ) (ps : List Piece)
    → ArePieces ps
    → total ps < ts_invalid
    → start_over errno (render ps) ≡ value (total ps)
unfolding start_over
over errno ps us fits =
    loop_render ps (length (render ps)) errno 0 us (length-render ps) (omega arith)
    ∙ ap value (omega arith)

-- A non-empty text of pieces is read as the sum of the pieces.
from_str-render :
    (errno : ℕ) (p : Piece) (ps : List Piece)
    → ArePieces (p ∷ ps)
    → total (p ∷ ps) < ts_invalid
    → timespan_from_str errno (render (p ∷ ps)) ≡ value (total (p ∷ ps))
unfolding render piece_text
from_str-render errno p ps (u, us) fits =
    let n = p.num in
    let rest = p.unit.name ++ render ps in
    let small : n < uintmax_max = grind (arith, num-le-total p ps u.positive) in
    let (d, s, e) = decimal-cons n in
    let (l, t, el) = cons_of_ne p.unit.name u.named in
    let (sd, sn) = letter-Stops p.unit.name (render ps) u.letters u.named in
    let dig : IsDigit d = (rw e at (All-decimal n)).0 in
    let whole : (decimal n ++ p.unit.name) ++ render ps ≡ d ∷ (s ++ rest) =
      rw (append_assoc (decimal n) p.unit.name (render ps), e) in
    let blanks : NoBlanks (d ∷ (s ++ rest)) = rw whole at (render-NoBlanks (p ∷ ps) (u, us)) in
    let read : strtoumax (d ∷ (s ++ rest)) ≡ (n, rest, false) =
      rw e at (strtoumax-decimal n rest small sd) in
    let behind : skip_blanks rest ≡ l ∷ (t ++ render ps) =
      skip_blanks-Stops rest sn ∙ ap (λ x. x ++ render ps) el in
    ap (timespan_from_str errno) whole
    ∙ trimmed errno d (s ++ rest) blanks (ground arith)
    ∙ from_trimmed_units errno n d (s ++ rest) rest (d ∷ (s ++ rest)) l (t ++ render ps)
        (ground arith) read small behind
    ∙ ap (start_over errno) (sym whole)
    ∙ over errno (p ∷ ps) (u, us) fits

pieces-cons :
    (us : List TimespanUnit) (ts : ℕ)
    → Descends us
    → 0 < ts
    → (p : Piece) × (ps : List Piece) × (pieces us ts ≡ p ∷ ps)
pieces-cons us ts d h = go (pieces us ts) (total-pieces us ts d)
  where
    go : (qs : List Piece) → total qs ≡ ts → (p : Piece) × (ps : List Piece) × (qs ≡ p ∷ ps)
    go [] e = absurd (unfold total in omega arith)
    go (p ∷ ps) e = (p, ps, refl)

-- The text of a finite, positive span is read back.
from_str-pieces :
    (errno ts : ℕ)
    → 0 < ts
    → ts < ts_infinity
    → timespan_from_str errno (render (pieces descending ts)) ≡ value ts
from_str-pieces errno ts h fits =
    let (p, ps, e) = pieces-cons descending ts descending-Descends h in
    let sum = total-pieces descending ts descending-Descends in
    let good : ArePieces (p ∷ ps) = rw e at (pieces-All descending ts descending-IsUnit) in
    let sum' : total (p ∷ ps) ≡ ts = rw e at sum in
    ap (λ qs. timespan_from_str errno (render qs)) e
    ∙ from_str-render errno p ps good (omega arith)
    ∙ ap value sum'

zero_text : (errno : ℕ) → timespan_from_str errno (codes "0") ≡ value 0
unfolding timespan_from_str from_trimmed skip_blanks scan_end bytes_eq strtoumax span value_from
zero_text errno = refl

infinity_text : (errno : ℕ) → timespan_from_str errno infinity_str ≡ value ts_infinity
unfolding timespan_from_str skip_blanks scan_end bytes_eq
infinity_text errno = refl

-- Every span but TS_INVALID, zero and infinity included, is read back from its text, whatever
-- errno holds when the text is read.
timespan_from_str-span_text :
    (errno ts : ℕ) → ts < ts_invalid → timespan_from_str errno (span_text ts) ≡ value ts
unfolding span_text
timespan_from_str-span_text errno ts h = elim (Bool-cases (ts == 0)) [
  | inl nothing ↦ rw nothing (zero_text errno ∙ ap value (ground arith))
  | inr something ↦ elim (Bool-cases (ts == ts_infinity)) [
    | inl forever ↦ rw (something, forever) (infinity_text errno ∙ ap value (ground arith))
    | inr finite ↦ rw (something, finite) (from_str-pieces errno ts (ground arith) (ground arith))
  ]
]

-- A span that fits its buffer is printed and read back: with room for the text and its
-- terminator, what timespan_to_str leaves in the buffer is read as the same span.
pub timespan_from_str-timespan_to_str :
    (errno size ts : ℕ)
    → ts < ts_invalid
    → length (span_text ts) < size
    → (n : ℕ) × (text : Bytes) × (timespan_to_str false size ts ≡ printed n text)
      × (timespan_from_str errno text ≡ value ts)
timespan_from_str-timespan_to_str errno size ts h room =
    let text = span_text ts in
    (
      length text,
      text,
      timespan_to_str-span_text false size ts (omega arith)
          ∙ ap (printed (length text)) (take_all (size - 1) text (omega arith)),
      timespan_from_str-span_text errno ts h,
    )
