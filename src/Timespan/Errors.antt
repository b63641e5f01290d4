-- ===== src/Timespan/Errors.antt =====
-- timespan_from_str on texts in general: how it ends, and what becomes of errors.
use sysvkit.Base.{
  ℕ, zero, suc, ◌+◌, ◌-◌, ◌*◌, ◌%◌, ◌^◌, ◌≤◌, ◌<◌, ◌≡◌, ◌∙◌, ◌≢◌, Bool, true, false, ◌&&◌, Option,
  none, some, [], ◌∷◌, append-nil, Bytes, bytes_eq, bytes_eq_sound, length, take, ltb, leb, ◌==◌,
  erange, einval, span, All, if◌then◌else◌, decimal, decimal-cons, All-decimal, IsDigit, value_from,
  is_digit, is_alpha, arith, inl, inr, Bool-cases, suc_ne_zero,
}
use sysvkit.Timespan.{
  timespan_units, infinity_str, ts_invalid, ts_sec, uintmax_max, is_blank, skip_blanks, scan_end,
  strtoumax, find_unit, timespan_loop, start_over, from_trimmed, timespan_from_str, TimespanResult,
  value, invalid, out_of_fuel,
}
use sysvkit.Timespan.RoundTrip.{trimmed, digits-NoBlanks}
use sysvkit.Timespan.Parse.{strtoumax-decimal, lt_ne}

-- The loop ends, and a sum is below TS_INVALID.
abbrev pub Ends : TimespanResult → Type 0
Ends (value v) = v < ts_invalid
Ends (invalid e) = Unit
Ends out_of_fuel = ⊥

length-span : (ok : ℕ → Bool) (s : Bytes) → length (span ok s).1 ≤ length s
unfolding span
length-span ok [] = omega arith
length-span ok (c ∷ s) = ground (arith, length-span ok s)

length-skip_blanks : (s : Bytes) → length (skip_blanks s) ≤ length s
unfolding skip_blanks
length-skip_blanks [] = omega arith
length-skip_blanks (c ∷ s) = ground (arith, length-skip_blanks s)

rest_of :
    (n : ℕ) (q : Bytes)
    → (let r : ℕ × Bytes × Bool =
          if ltb uintmax_max n then (uintmax_max, q, true) else (n, q, false) in
        r.1)
      ≡ q
rest_of n q = ground arith

strtoumax_rest : (c : ℕ) (s : Bytes) → is_digit c ≡ true → length (strtoumax (c ∷ s)).1 ≤ length s
unfolding strtoumax
strtoumax_rest c s h =
    rw (rest_of (value_from 0 (span is_digit (c ∷ s)).0) (span is_digit (c ∷ s)).1) (front h)
  where
    front : is_digit c ≡ true → length (span is_digit (c ∷ s)).1 ≤ length s
    front d = unfold span in rw d (length-span is_digit s)

-- One round, from any behaviour of the later rounds.
loop_round :
    (f errno c : ℕ) (s : Bytes) (ts : ℕ)
    → ts < ts_invalid
    → ((e : ℕ) (t : Bytes) (ts' : ℕ)
        → length t ≤ length s
        → ts' < ts_invalid
        → Ends (timespan_loop f e t ts'))
    → Ends (timespan_loop (suc f) errno (c ∷ s) ts)
unfolding timespan_loop
loop_round f errno c s ts fits later = elim (Bool-cases (is_digit c)) [
  | inr no_digit ↦ rw no_digit tt
  | inl digit ↦
      let (num, q, range) = strtoumax (c ∷ s) in
      let (name, r) = span is_alpha (skip_blanks q) in
      let e = if range then erange else errno in
      let shorter : length (skip_blanks r) ≤ length s = omega (
        arith,
        strtoumax_rest c s digit,
        length-skip_blanks q,
        length-skip_blanks r,
        length-span is_alpha (skip_blanks q),
      ) in
      rw digit (round num e (find_unit name timespan_units) (skip_blanks r) shorter)
]
  where
    round :
        (num e : ℕ) (unit : Option ℕ) (r : Bytes)
        → length r ≤ length s
        → Ends (
            if num == uintmax_max && e == erange then invalid e else elim unit [
              | none ↦ invalid einval
              | some v ↦
                  let num' = num * v % 2 ^ 64 in
                  let next = timespan_loop f e r (ts + num') in
                  if leb (ts_invalid - ts) num' then invalid erange else next
            ])
    round num e none r h = ground arith
    round num e (some v) r h = ground (arith, later e r (ts + num * v % 2 ^ 64) h)

loop_Ends :
    (f errno : ℕ) (s : Bytes) (ts : ℕ)
    → length s ≤ f
    → ts < ts_invalid
    → Ends (timespan_loop f errno s ts)
loop_Ends f errno [] ts h fits = unfold timespan_loop in fits
loop_Ends zero errno (c ∷ s) ts h fits = absurd (omega arith)
loop_Ends (suc f) errno (c ∷ s) ts h fits =
    loop_round f errno c s ts fits (λ e t ts' ht fits'. loop_Ends f e t ts' (omega arith) fits')

start_over-Ends : (errno : ℕ) (s : Bytes) → Ends (start_over errno s)
unfolding start_over
start_over-Ends errno s = loop_Ends (length s) errno s 0 (omega arith) (omega arith)

-- A multiple of the even TS_SEC is not the odd TS_INVALID.
second_lt : (n : ℕ) → n * ts_sec % 2 ^ 64 < ts_invalid
second_lt n = omega arith

from_trimmed-Ends : (errno : ℕ) (p text : Bytes) → Ends (from_trimmed errno p text)
unfolding from_trimmed
from_trimmed-Ends errno [] text = start_over-Ends errno text
from_trimmed-Ends errno (c ∷ s) text =
    let (num, q, range) = strtoumax (c ∷ s) in
    let e = if range then erange else errno in
    ground (arith, start_over-Ends errno text, start_over-Ends e text, second_lt num)

-- Every call returns, for every text and every errno at the call: the loop's fuel is enough, and
-- a span that is returned as a value is never TS_INVALID.
pub timespan_from_str-Ends : (errno : ℕ) (str : Bytes) → Ends (timespan_from_str errno str)
unfolding timespan_from_str
timespan_from_str-Ends errno str =
    let p = skip_blanks str in ground (arith, from_trimmed-Ends errno p (take (scan_end p 0 0) p))

scan_end_le : (s : Bytes) (i end : ℕ) → end ≤ i → end ≤ scan_end s i end
unfolding scan_end
scan_end_le [] i end h = omega arith
scan_end_le (c ∷ s) i end h =
    ground (arith, scan_end_le s (suc i) end, scan_end_le s (suc i) (suc i))

bytes_ne : (s t : Bytes) → s ≢ t → bytes_eq s t ≡ false
bytes_ne s t h = elim (Bool-cases (bytes_eq s t)) [
  | inl same ↦ absurd (h (bytes_eq_sound s t same))
  | inr other ↦ other
]

from_trimmed_no_digit :
    (errno c n : ℕ) (s : Bytes)
    → is_digit c ≡ false
    → from_trimmed errno (c ∷ s) (take (suc n) (c ∷ s)) ≡ invalid einval
unfolding from_trimmed start_over timespan_loop
from_trimmed_no_digit errno c n s h = rw h

-- A text whose first byte behind the leading blanks is no digit is a syntax error, unless all of
-- the text from there on is "infinity": trailing blanks behind that word are an error too.
pub timespan_from_str_syntax :
    (errno c : ℕ) (str s : Bytes)
    → skip_blanks str ≡ c ∷ s
    → is_blank c ≡ false
    → is_digit c ≡ false
    → c ∷ s ≢ infinity_str
    → timespan_from_str errno str ≡ invalid einval
unfolding timespan_from_str
timespan_from_str_syntax errno c str s front nb nd h =
    let (n, e) = some_end in
    rw (front, e, bytes_ne (c ∷ s) infinity_str h)
      (rw (suc_ne_zero (scan_end s 1 1 - 1)) (from_trimmed_no_digit errno c n s nd))
  where
    some_end : (n : ℕ) × (scan_end (c ∷ s) 0 0 ≡ suc n)
    some_end = (scan_end s 1 1 - 1, unfold scan_end in rw nb (omega (arith, scan_end_le s 1 1)))

seconds :
    (errno d : ℕ) (s : Bytes) (n : ℕ)
    → is_digit d ≡ true
    → strtoumax (d ∷ s) ≡ (n, [], false)
    → n < uintmax_max
    → from_trimmed errno (d ∷ s) (d ∷ s) ≡ value (n * ts_sec % 2 ^ 64)
unfolding from_trimmed skip_blanks
seconds errno d s n digit read h = rw (digit, read) (rw (lt_ne n uintmax_max h) (rw read))

-- The decimal numeral of a number below UINTMAX_MAX, without leading zeros and with nothing in front of
-- it or behind it, is taken in seconds: the result is the number of microseconds modulo 2 ^ 64, and no
-- error, also where the product does not fit, as from 18446744073710 seconds on.
pub timespan_from_str_unitless :
    (errno n : ℕ)
    → n < uintmax_max
    → timespan_from_str errno (decimal n) ≡ value (n * ts_sec % 2 ^ 64)
timespan_from_str_unitless errno n h =
    let (d, s, e) = decimal-cons n in
    let all_digits : All IsDigit (d ∷ s) = rw e at (All-decimal n) in
    let read : strtoumax (d ∷ s) ≡ (n, [], false) =
      rw (append-nil (decimal n), e) at (strtoumax-decimal n [] h tt) in
    rw e (
      trimmed errno d s (digits-NoBlanks (d ∷ s) all_digits) (ground arith)
      ∙ seconds errno d s n (ground arith) read h)
