-- ===== src/Systemd.antt =====
-- src/sysvrun/systemd.c: service names, systemd's quoting rules, and the parser of unit files. The
-- classes of <ctype.h> are those of the C locale.
pub mod Quoting
pub mod Parse
pub mod Pairs
pub mod RoundTrip
mod Tests
use mathlib.Core.Bool.{◌||◌}
use sysvkit.Base.{
  ℕ, ◌-◌, Bool, true, false, not, ◌&&◌, List, [], ◌∷◌, ◌++◌, Bytes, codes, ◌==◌, leb, is_digit,
  is_alpha, if◌then◌else◌, length, take,
}

-- isblank, isprint
abbrev pub isblank : ℕ → Bool
isblank c = c == b' ' || c == b'\t'

abbrev pub isprint : ℕ → Bool
isprint c = leb 32 c && leb c 126

abbrev pub dot_service : Bytes
dot_service = codes ".service"

-- The string without the suffix, and whether it was there; `ends_with` is charstr_ends_with.
unfoldable pub deservicify : (Bytes → Bytes → Bool) → Bytes → Bool × Bytes
deservicify ends_with str =
    if ends_with str dot_service
    then (true, take (length str - length dot_service) str)
    else (false, str)

-- The table of standard C escapes; 0 where there is none.
unfoldable pub escape : ℕ → ℕ
escape c =
    if c == b'a'
    then 7
    else if c == b'b'
    then 8
    else if c == b'f'
    then 12
    else if c == b'n'
    then b'\n'
    else if c == b'r'
    then b'\r'
    else if c == b's'
    then b' '
    else if c == b't'
    then b'\t'
    else if c == b'v'
    then 11
    else if c == b'\\' || c == b'"' || c == b'\''
    then c
    else 0

-- What the inner loop of systemd_split_quoted does with a byte: no more than a new quote, the end of
-- the word, or a byte appended to it.
pub data WordStep : Type 0 where
  quoted : ℕ → WordStep
  word_end : WordStep
  appended : ℕ → WordStep

-- The byte that a backslash stands for, by the bytes behind it.
unfoldable pub escaped : ℕ → ℕ
escaped c = if escape c == 0 then c else escape c

unfoldable pub plain_step : ℕ → ℕ → WordStep
plain_step q ch = if isblank ch && q == 0 then word_end else appended ch

unfoldable pub word_step : ℕ → ℕ → Bytes → WordStep
word_step q ch p =
    if (ch == b'"' || ch == b'\'') && q == 0
    then quoted ch
    else if (ch == b'"' || ch == b'\'') && ch == q
    then quoted 0
    else if ch == b'\\'
    then (elim p [ [] ↦ word_end | c ∷ s ↦ plain_step q (escaped c) ])
    else plain_step q ch

-- The two loops of systemd_split_quoted: `none` between words, or the quote that is open and the
-- word's bytes up to here.
unfoldable pub next_state : Bool → ℕ → Bytes → ℕ → Bytes → List Bytes × (Bool × (ℕ × Bytes))
next_state inside q word ch p =
    if not inside && isblank ch then ([], (false, (q, word))) else elim (word_step q ch p) [
      | quoted q' ↦ ([], (true, (q', word)))
      | word_end ↦ (word ∷ [], (false, (q, [])))
      | appended c ↦ ([], (true, (q, word ++ c ∷ [])))
    ]

unfoldable pub split_loop : Bool → ℕ → Bytes → Bytes → List Bytes
split_loop inside q word [] = if inside then word ∷ [] else []
split_loop inside q word (ch ∷ p) =
    let (done, (inside', (q', word'))) = next_state inside q word ch p in
    done ++ split_loop inside' q' word' p

unfoldable pub systemd_split_quoted : Bytes → List Bytes
systemd_split_quoted string = split_loop false 0 [] string
