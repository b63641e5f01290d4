-- ===== src/Sysvinit/ScriptLines.antt =====
-- The lines of an init script are not those that the parser of init scripts searches for.
use sysvkit.Base.{
  ℕ, zero, ◌-◌, suc, ◌≡◌, refl, Bool, true, ◌&&◌, Option, none, some, List, [], ◌∷◌, ◌++◌, Bytes,
  codes, bytes_eq, length, replicate, All, All-append, arith,
}
use sysvkit.Text.{in_line}
use sysvkit.Text.Lines.{IsLine}
use sysvkit.Text.Search.Skip.{IsOther}
use sysvkit.Sysvinit.{
  lsb_end_init_info, begin_embed, padded, field, spaced, list_field, description_field, block_lines,
  exec_line,
}

pub IsLine-append : (s t : Bytes) → IsLine s → IsLine t → IsLine (s ++ t)
IsLine-append s t hs ht = All-append (λ c. in_line c ≡ true) s t hs ht

-- A literal is a line if a test says so.
abbrev pub all_in_line : Bytes → Bool
all_in_line [] = true
all_in_line (c ∷ s) = in_line c && all_in_line s

pub literal : (s : Bytes) → all_in_line s ≡ true → IsLine s
literal [] h = tt
literal (c ∷ s) h = (ground arith, literal s (ground arith))

pub spaced-IsLine : (l : List Bytes) → All IsLine l → IsLine (spaced l)
unfolding spaced in_line
spaced-IsLine [] h = tt
spaced-IsLine (s ∷ l) (h, hs) = (refl, IsLine-append s (spaced l) h (spaced-IsLine l hs))

abbrev pub Description : Option Bytes → Type 0
Description none = Unit
Description (some v) = IsLine v

pub padded-IsLine : (n : ℕ) (s : Bytes) → IsLine s → IsLine (padded n s)
unfolding padded in_line
padded-IsLine n s h = IsLine-append s (replicate (n - length s) b' ') h (blanks (n - length s))
  where
    blanks : (n : ℕ) → IsLine (replicate n b' ')
    blanks zero = tt
    blanks (suc n) = (refl, blanks n)

-- A line of the comment block is not its end.
pub comment-IsOther : (t : Bytes) → IsLine t → IsOther lsb_end_init_info (codes "# " ++ t)
unfolding bytes_eq in_line
comment-IsOther t h = ((refl, (refl, h)), refl)

pub field-IsOther :
    (key v : Bytes) → IsLine key → IsLine v → IsOther lsb_end_init_info (field key v)
unfolding field
field-IsOther key v hk hv =
    comment-IsOther (padded 22 key ++ v)
      (IsLine-append (padded 22 key) v (padded-IsLine 22 key hk) hv)

pub list_field-IsOther :
    (key : Bytes) (l : List Bytes)
    → IsLine key
    → All IsLine l
    → All (IsOther lsb_end_init_info) (list_field key l)
unfolding list_field
list_field-IsOther key [] hk hl = tt
list_field-IsOther key (s ∷ l) hk hl =
    let t = padded 21 key ++ spaced (s ∷ l) in
    (
      comment-IsOther t (
          IsLine-append (padded 21 key) (spaced (s ∷ l)) (padded-IsLine 21 key hk)
            (spaced-IsLine (s ∷ l) hl)),
      tt,
    )

pub block_lines-IsOther :
    (required should : List Bytes) (description : Option Bytes)
    → All IsLine required
    → All IsLine should
    → Description description
    → All (IsOther lsb_end_init_info) (block_lines required should description)
unfolding block_lines description_field in_line
block_lines-IsOther required should description hr hs hd =
    All-append (IsOther lsb_end_init_info) (list_field (codes "Required-Start:") required) _
      (list_field-IsOther (codes "Required-Start:") required
        (literal (codes "Required-Start:") refl) hr)
      (All-append (IsOther lsb_end_init_info) (list_field (codes "Should-Start:") should) _
        (list_field-IsOther (codes "Should-Start:") should (literal (codes "Should-Start:") refl)
          hs)
        (
          field-IsOther (codes "Default-Start:") (codes "2 3 4 5")
              (literal (codes "Default-Start:") refl) (literal (codes "2 3 4 5") refl),
          described description hd,
        ))
  where
    described :
        (d : Option Bytes) → Description d → All (IsOther lsb_end_init_info) (description_field d)
    described none h = tt
    described (some v) h = (
      field-IsOther (codes "Short-Description") v (literal (codes "Short-Description") refl) h,
      tt,
    )

pub exec_line-IsOther :
    (self name : Bytes) → IsLine self → IsLine name → IsOther begin_embed (exec_line self name)
unfolding exec_line bytes_eq in_line
exec_line-IsOther self name hs hn = (
  IsLine-append (codes "exec ") (self ++ (codes " -u \"$0\" " ++ (name ++ codes " \"$@\"")))
      (literal (codes "exec ") refl)
      (IsLine-append self (codes " -u \"$0\" " ++ (name ++ codes " \"$@\"")) hs (
        IsLine-append (codes " -u \"$0\" ") (name ++ codes " \"$@\"")
          (literal (codes " -u \"$0\" ") refl)
          (IsLine-append name (codes " \"$@\"") hn (literal (codes " \"$@\"") refl)))),
  refl,
)
