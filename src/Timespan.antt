-- ===== src/Timespan.antt =====
-- src/common/timespan.c and include/timespan.h: systemd time spans in microseconds.
-- A C string is the list of its bytes; `usec_t` and `uintmax_t` are 64 bits wide.
pub mod Pieces
pub mod Print
pub mod Parse
pub mod Units
pub mod RoundTrip
pub mod Errors
mod Tests
use mathlib.Core.Bool.{◌||◌}
use mathlib.Core.List.{reverse}
use sysvkit.Base.{
  ℕ, zero, suc, ◌+◌, ◌-◌, ◌*◌, ◌/◌, ◌%◌, ◌^◌, Bool, true, false, not, ◌&&◌, Option, none, some,
  List, [], ◌∷◌, ◌++◌, Bytes, codes, bytes_eq, span, length, take, ltb, leb, ◌==◌, if◌then◌else◌,
  is_digit, is_alpha, value_from, decimal, einval, erange,
}

abbrev pub ts_usec : ℕ
ts_usec = 1

abbrev pub ts_msec : ℕ
ts_msec = 1000 * ts_usec

abbrev pub ts_sec : ℕ
ts_sec = 1000 * ts_msec

abbrev pub ts_min : ℕ
ts_min = 60 * ts_sec

abbrev pub ts_hr : ℕ
ts_hr = 60 * ts_min

abbrev pub ts_day : ℕ
ts_day = 24 * ts_hr

abbrev pub ts_week : ℕ
ts_week = 7 * ts_day

abbrev pub ts_month : ℕ
ts_month = 3044 * ts_day / 100

abbrev pub ts_year : ℕ
ts_year = 36525 * ts_day / 100

-- (usec_t)(-2) and (usec_t)(-1)
abbrev pub ts_infinity : ℕ
ts_infinity = 2 ^ 64 - 2

abbrev pub ts_invalid : ℕ
ts_invalid = 2 ^ 64 - 1

abbrev pub uintmax_max : ℕ
uintmax_max = 2 ^ 64 - 1

pub record TimespanUnit : Type 0 where
  pub name : Bytes
  pub value : ℕ

abbrev timespan_unit : Bytes → ℕ → TimespanUnit
timespan_unit n v = record { name = n; value = v }

-- The table without its terminator { NULL, TS_INVALID }.
unfoldable pub timespan_units : List TimespanUnit
timespan_units =
    timespan_unit (codes "usec") ts_usec
    ∷ timespan_unit (codes "us") ts_usec
    ∷ timespan_unit (codes "msec") ts_msec
    ∷ timespan_unit (codes "ms") ts_msec
    ∷ timespan_unit (codes "seconds") ts_sec
    ∷ timespan_unit (codes "second") ts_sec
    ∷ timespan_unit (codes "sec") ts_sec
    ∷ timespan_unit (codes "s") ts_sec
    ∷ timespan_unit (codes "minutes") ts_min
    ∷ timespan_unit (codes "minute") ts_min
    ∷ timespan_unit (codes "min") ts_min
    ∷ timespan_unit (codes "m") ts_min
    ∷ timespan_unit (codes "hours") ts_hr
    ∷ timespan_unit (codes "hour") ts_hr
    ∷ timespan_unit (codes "hr") ts_hr
    ∷ timespan_unit (codes "h") ts_hr
    ∷ timespan_unit (codes "days") ts_day
    ∷ timespan_unit (codes "day") ts_day
    ∷ timespan_unit (codes "d") ts_day
    ∷ timespan_unit (codes "weeks") ts_week
    ∷ timespan_unit (codes "week") ts_week
    ∷ timespan_unit (codes "w") ts_week
    ∷ timespan_unit (codes "months") ts_month
    ∷ timespan_unit (codes "month") ts_month
    ∷ timespan_unit (codes "M") ts_month
    ∷ timespan_unit (codes "years") ts_year
    ∷ timespan_unit (codes "year") ts_year
    ∷ timespan_unit (codes "y") ts_year
    ∷ []

abbrev pub infinity_str : Bytes
infinity_str = codes "infinity"

-- The file's own isblank, which takes a newline too.
abbrev pub is_blank : ℕ → Bool
is_blank c = c == b' ' || c == b'\t' || c == b'\n'

unfoldable pub skip_blanks : Bytes → Bytes
skip_blanks [] = []
skip_blanks (c ∷ s) = if is_blank c then skip_blanks s else c ∷ s

-- The scan for `end`: `i` is the offset of the byte read, `end` one past the last non-blank byte.
unfoldable pub scan_end : Bytes → ℕ → ℕ → ℕ
scan_end [] i end = end
scan_end (c ∷ s) i end = scan_end s (suc i) (if is_blank c then end else suc i)

-- strtoumax(p, &q, 10) where *p is a digit, so with no white space or sign in front: the value,
-- q, and whether errno becomes ERANGE.
unfoldable pub strtoumax : Bytes → ℕ × Bytes × Bool
strtoumax p =
    let (ds, q) = span is_digit p in
    let n = value_from 0 ds in if ltb uintmax_max n then (uintmax_max, q, true) else (n, q, false)

-- A value, or TS_INVALID with the errno that is left behind.
pub data TimespanResult : Type 0 where
  value : ℕ → TimespanResult
  invalid : ℕ → TimespanResult
  out_of_fuel : TimespanResult

-- The search of the table that validates a unit.
unfoldable pub find_unit : Bytes → List TimespanUnit → Option ℕ
find_unit name [] = none
find_unit name (u ∷ us) = if bytes_eq u.name name then some u.value else find_unit name us

-- The main loop from `p` up to `end`. `errno` is the caller's, which the overflow test reads.
unfoldable pub timespan_loop : ℕ → ℕ → Bytes → ℕ → TimespanResult
timespan_loop f errno [] ts = value ts
timespan_loop zero errno (c ∷ s) ts = out_of_fuel
timespan_loop (suc f) errno (c ∷ s) ts =
    if not (is_digit c)
    then invalid einval
    else let (num, q, range) = strtoumax (c ∷ s) in
      let errno' = if range then erange else errno in
      let (name, r) = span is_alpha (skip_blanks q) in
      if num == uintmax_max && errno' == erange
      then invalid errno'
      else elim (find_unit name timespan_units) [
        | none ↦ invalid einval
        | some v ↦
            let num' = num * v % 2 ^ 64 in
            let next = timespan_loop f errno' (skip_blanks r) (ts + num') in
            if leb (ts_invalid - ts) num' then invalid erange else next
      ]

unfoldable pub start_over : ℕ → Bytes → TimespanResult
start_over errno text = timespan_loop (length text) errno text 0

-- The unitless case, which reads on to the end of the string `p`; `text` is `p` up to `end`.
unfoldable pub from_trimmed : ℕ → Bytes → Bytes → TimespanResult
from_trimmed errno [] text = start_over errno text
from_trimmed errno (c ∷ s) text =
    let (num, q, range) = strtoumax (c ∷ s) in
    let errno' = if range then erange else errno in
    if not (is_digit c)
    then start_over errno text
    else if num == uintmax_max && errno' == erange
    then invalid errno'
    else elim (skip_blanks q) [
      | [] ↦ value (num * ts_sec % 2 ^ 64)
      | _ ∷ _ ↦ start_over errno' text
    ]

unfoldable pub timespan_from_str : ℕ → Bytes → TimespanResult
timespan_from_str errno str =
    let p = skip_blanks str in
    let end = scan_end p 0 0 in
    if end == 0
    then invalid 0
    else if bytes_eq p infinity_str
    then value ts_infinity
    else from_trimmed errno p (take end p)

-- timespan_to_str's buffer: what is stored before the terminator, the room left from `buf` on
-- (0 for a null buffer), and the sum of the lengths.
pub record Output : Type 0 where
  pub stored : Bytes
  pub size : ℕ
  pub len : ℕ

-- One snprintf at `buf`, and the move of `buf` and `size` behind it.
unfoldable pub append_piece : Output → Bytes → Output
append_piece out piece =
    let res = length piece in
    if out.size == 0 then record out { len = out.len + res } else record {
      stored = out.stored ++ take (out.size - 1) piece;
      size = if ltb res out.size then out.size - res else 1;
      len = out.len + res;
    }

-- The inner loop over the table, whose entries are listed from `tsu` downwards.
unfoldable pub seek : List TimespanUnit → ℕ → List TimespanUnit
seek [] ts = []
seek (u ∷ []) ts = u ∷ []
seek (u ∷ v ∷ us) ts = if ltb ts u.value then seek (v ∷ us) ts else u ∷ v ∷ us

-- The outer loop, with fuel; `none` means that the fuel ran out.
unfoldable pub emit_units : ℕ → List TimespanUnit → ℕ → Output → Option Output
emit_units zero cursor ts out = none
emit_units (suc f) cursor ts out = elim (ts == 0) [
  | true ↦ some out
  | false ↦ elim (seek cursor ts) [
    | [] ↦ none
    | u ∷ us ↦
        emit_units f (u ∷ us) (ts % u.value) (append_piece out (decimal (ts / u.value) ++ u.name))
  ]
]

-- The return value and the buffer up to its terminator, or -1 with errno.
pub data PrintResult : Type 0 where
  printed : ℕ → Bytes → PrintResult
  failed : ℕ → PrintResult
  stuck : PrintResult

abbrev pub fresh_output : ℕ → Output
fresh_output size = record { stored = []; size = size; len = 0 }

abbrev pub print_result : Option Output → PrintResult
print_result none = stuck
print_result (some out) = printed out.len out.stored

-- The table from its last entry, where the loop starts.
unfoldable pub descending : List TimespanUnit
unfolding timespan_units
descending = reverse timespan_units

unfoldable pub timespan_to_str : Bool → ℕ → ℕ → PrintResult
timespan_to_str null size ts =
    let out = fresh_output (if null then 0 else size) in
    if ts == 0
    then print_result (some (append_piece out (codes "0")))
    else if ts == ts_invalid
    then failed einval
    else if ts == ts_infinity
    then print_result (some (append_piece out infinity_str))
    else print_result (emit_units (suc (length timespan_units)) descending ts out)
