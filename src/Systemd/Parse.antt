-- ===== src/Systemd/Parse.antt =====
-- src/sysvrun/systemd.c: the parser of unit files, one line at a time. The counts s, k and v are not
-- bounded here; each is compared with the size of its buffer as the source does. Messages are left
-- out.
pub mod Lines
pub mod Total
use mathlib.Core.Bool.{◌||◌}
use sysvkit.Base.{
  ℕ, zero, suc, ◌-◌, Bool, true, false, not, ◌&&◌, Option, none, some, List, [], ◌∷◌, ◌++◌, Bytes,
  ◌==◌, leb, ltb, is_digit, is_alpha, if◌then◌else◌, length, span,
}
use mathlib.Core.List.{reverse}
use sysvkit.Systemd.{isblank, isprint}
use sysvkit.Table.{HashTable}
use sysvkit.UnitFile.{ServiceUnit, unit_create, unit_update_value}

abbrev pub issectionname : ℕ → Bool
issectionname ch = isprint ch && not (ch == b'[') && not (ch == b']')

abbrev pub iskey : ℕ → Bool
iskey ch = is_digit ch || is_alpha ch || ch == b'-'

abbrev pub isvalue : ℕ → Bool
isvalue ch = isprint ch || ch == b'\t'

-- The sizes of the buffers.
abbrev pub name_size : ℕ
name_size = 256

abbrev pub value_size : ℕ
value_size = 1024

-- What a line comes to: the unit's text behind a blank or comment line, a header, or a pair; or an
-- error.
pub data Line : Type 0 where
  skipped : Bytes → Line
  header : Bytes → Bytes → Line
  pair : Bytes → Bytes → Bytes → Line
  bad : Line

-- `*r == '\0'` and the end of the text end the input too early; a line's bytes otherwise.
abbrev pub is_nul : ℕ → Bool
is_nul c = c == 0

abbrev pub in_comment_line : ℕ → Bool
in_comment_line c = not (c == 0) && not (c == b'\n')

unfoldable pub behind_comment : Bytes → Line
behind_comment [] = bad
behind_comment (c ∷ p) = if is_nul c then bad else skipped p

unfoldable pub comment_line : Bytes → Line
comment_line cur = let (text, p) = span in_comment_line cur in behind_comment p

-- Behind the section's name: the bracket, and the end of the line behind it.
unfoldable pub header_end : Bytes → Bytes → Line
header_end name [] = bad
header_end name (b ∷ []) = bad
header_end name (b ∷ n ∷ r) =
    if length name == 0
      || not (b == b']')
      || not (n == b'\n')
      || not (ltb (length name) (name_size - 1))
    then bad
    else header name r

unfoldable pub header_line : Bytes → Line
header_line p = let (name, q) = span issectionname p in header_end name q

-- The scan of a value: within it, at the newline behind a backslash or behind a comment, and within
-- a comment line that a continuation skips.
pub data Mode : Type 0 where
  in_value : Mode
  at_newline : Mode
  in_comment : Mode

-- A byte is appended to the value, whose bytes are `rev` from the last to the first: a tab as a
-- space, and a space not behind another.
unfoldable pub push_normal : ℕ → Bytes → Bytes
push_normal ch [] = ch ∷ []
push_normal ch (l ∷ rev) =
    if ch == b' ' && ltb (length (l ∷ rev)) value_size && l == b' ' then l ∷ rev else ch ∷ l ∷ rev

unfoldable pub push : ℕ → Bytes → Bytes
push ch rev = push_normal (if ch == b'\t' then b' ' else ch) rev

abbrev pub starts_newline : Bytes → Bool
starts_newline [] = false
starts_newline (c ∷ s) = c == b'\n'

abbrev pub starts_comment : Bytes → Bool
starts_comment [] = false
starts_comment (c ∷ s) = c == b'#' || c == b';'

-- Where the scan goes on behind a byte, or that it ends at this one.
pub data Scan : Type 0 where
  go_on : Mode → Bytes → Scan
  ended : Scan

unfoldable pub behind_line : Bytes → Bytes → Scan
behind_line rev rest =
    if starts_comment rest then go_on in_comment rev else go_on in_value (push b' ' rev)

unfoldable pub scan_step : Mode → Bytes → ℕ → Bytes → Scan
scan_step in_value rev c rest =
    if not (isvalue c)
    then ended
    else if c == b'\\' && starts_newline rest
    then go_on at_newline rev
    else go_on in_value (push c rev)
scan_step at_newline rev c rest = behind_line rev rest
scan_step in_comment rev c rest =
    if c == 0 || c == b'\n' then behind_line rev rest else go_on in_comment rev

-- The value that ends at a byte other than NUL: without a trailing space, where it is short enough.
unfoldable pub trimmed : Bytes → Bytes
trimmed [] = []
trimmed (l ∷ rev) = if ltb (length (l ∷ rev)) value_size && l == b' ' then rev else l ∷ rev

unfoldable pub value_end : Bytes → Bytes → ℕ → Bytes → Line
value_end key rev c rest =
    let v = trimmed rev in
    if c == 0 || not (ltb (length key) (name_size - 1)) || not (ltb (length v) (value_size - 1))
    then bad
    else pair key (reverse v) rest

unfoldable pub value_loop : Bytes → Mode → Bytes → Bytes → Line
value_loop key m rev [] = bad
value_loop key m rev (c ∷ rest) = elim (scan_step m rev c rest) [
  | go_on m' rev' ↦ value_loop key m' rev' rest
  | ended ↦ value_end key rev c rest
]

-- Behind the key: the blanks, the `=` and more blanks.
unfoldable pub behind_equals : Bytes → Bytes → Line
behind_equals key q = let (blanks, r) = span isblank q in value_loop key in_value [] r

unfoldable pub equals : Bytes → Bytes → Line
equals key [] = bad
equals key (c ∷ q) = if c == b'=' && ltb 0 (length key) then behind_equals key q else bad

unfoldable pub behind_key : Bytes → Bytes → Line
behind_key key p = let (blanks, q) = span isblank p in equals key q

unfoldable pub pair_line : Bytes → Line
pair_line cur = let (key, p) = span iskey cur in behind_key key p

-- One round of the loop, at `*cur`.
unfoldable pub parse_line : ℕ → Bytes → Line
parse_line c s =
    if c == 0
    then bad
    else if c == b'\n'
    then skipped s
    else if c == b'#' || c == b';'
    then comment_line (c ∷ s)
    else if c == b'['
    then header_line s
    else pair_line (c ∷ s)

-- section[0] == '\0'
abbrev pub is_empty : Bytes → Bool
is_empty [] = true
is_empty (c ∷ s) = false

module _ (h : HashTable) where
  -- The unit, NULL, a use of freed memory in the unit, or no fuel.
  pub data Parsed : Type 0 where
    parsed : ServiceUnit h → Parsed
    malformed : Parsed
    freed_memory : Parsed
    out_of_fuel : Parsed

  -- The pair is set, or appended unless its value is empty; where it goes on.
  unfoldable pub store : Bytes → ServiceUnit h → Bytes → Bytes → Option (ServiceUnit h)
  store section u key v = elim (unit_update_value h u section key (some v) (ltb 0 (length v))) [
    | none ↦ none
    | some (existed, u') ↦ some u'
  ]

  -- The loop over the lines, `section` being the current section's name.
  unfoldable pub parse_lines : ℕ → Bytes → ServiceUnit h → Bytes → Parsed
  parse_lines fuel section u [] = parsed u
  parse_lines zero section u (c ∷ s) = out_of_fuel
  parse_lines (suc fuel) section u (c ∷ s) = elim (parse_line c s) [
    | bad ↦ malformed
    | skipped rest ↦ parse_lines fuel section u rest
    | header name rest ↦ parse_lines fuel name u rest
    | pair key v rest ↦ elim (is_empty section) [
      | true ↦ malformed
      | false ↦ elim (store section u key v) [
        | none ↦ freed_memory
        | some u' ↦ parse_lines fuel section u' rest
      ]
    ]
  ]

  unfoldable pub systemd_parse_unit_file : Bytes → Bytes → Parsed
  systemd_parse_unit_file name txt = parse_lines (length txt) [] (unit_create h name) txt
