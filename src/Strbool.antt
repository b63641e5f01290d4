-- ===== src/Strbool.antt =====
-- src/common/strbool.c: strings as Booleans. strcasecmp is equality of the strings in lower case.
pub mod Case
mod Tests
use sysvkit.Base.{
  ℕ, ◌+◌, Bool, true, false, ◌&&◌, ◌||◌, Option, none, some, List, [], ◌∷◌, Bytes, codes, bytes_eq,
  leb, if◌then◌else◌,
}

-- tolower in the C locale.
unfoldable pub lower_byte : ℕ → ℕ
lower_byte c = if leb b'A' c && leb c b'Z' then c + 32 else c

unfoldable pub lower : Bytes → Bytes
lower [] = []
lower (c ∷ s) = lower_byte c ∷ lower s

-- strcasecmp(a, b) == 0
unfoldable pub case_eq : Bytes → Bytes → Bool
case_eq a b = bytes_eq (lower a) (lower b)

-- none for -1; the string is none where it is NULL.
unfoldable pub strbool : Option Bytes → Option Bool
strbool none = none
strbool (some str) =
    if bytes_eq str (codes "1")
      || case_eq str (codes "yes")
      || case_eq str (codes "true")
      || case_eq str (codes "on")
    then some true
    else if bytes_eq str (codes "0")
        || bytes_eq str (codes "no")
        || case_eq str (codes "false")
        || case_eq str (codes "off")
    then some false
    else none
