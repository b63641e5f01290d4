-- ===== src/Sysvinit.antt =====
-- src/sysvrun/sysvinit.c: the unit file embedded in an init script, and service_to_byte_array of
-- src/sysvrun/service.c, which writes such scripts. The path that the script executes is an argument.
pub mod ScriptLines
pub mod RoundTrip
pub mod UnitLines
use sysvkit.Base.{
  ℕ, ◌-◌, ◌+◌, Bool, true, false, not, Option, none, some, List, [], ◌∷◌, ◌++◌, Bytes, codes, span,
  ◌==◌, if◌then◌else◌, length, drop, replicate, einval, enoent,
}
use sysvkit.Text.Lines.{unlines}
use sysvkit.Text.Search.{
  TextLine, between, text_first_line_equals, text_next_line_equals, text_next_line_prefix,
}
use sysvkit.Systemd.{isblank}
use sysvkit.Table.{HashTable}
use sysvkit.UnitFile.{Value, value, missing, freed, ServiceUnit, unit_get_value, unit_to_byte_array}

abbrev pub lsb_begin_init_info : Bytes
lsb_begin_init_info = codes "### BEGIN INIT INFO"

abbrev pub lsb_end_init_info : Bytes
lsb_end_init_info = codes "### END INIT INFO"

abbrev pub lsb_provides : Bytes
lsb_provides = codes "# Provides:"

abbrev pub begin_embed : Bytes
begin_embed = codes ":<<SYSVKIT"

abbrev pub end_embed : Bytes
end_embed = codes "SYSVKIT"

-- The bytes of the embedded unit file, or errno.
pub data Script : Type 0 where
  embedded : Bytes → Script
  refused : ℕ → Script

-- The comparison of the first facility with the name: the whole name, then a blank or the line's end.
unfoldable pub provides : Bytes → Bytes → Bool
provides [] [] = true
provides [] (q ∷ line) = isblank q
provides (s ∷ name) [] = false
provides (s ∷ name) (q ∷ line) = if q == s then provides name line else false

-- The unit file between the lines that begin and end it, behind the LSB comment block.
unfoldable pub unit_behind : TextLine → Script
unit_behind line = elim (text_next_line_equals line lsb_end_init_info 0) [
  | none ↦ refused einval
  | some block_end ↦ elim (text_next_line_equals block_end begin_embed 0) [
    | none ↦ refused enoent
    | some start ↦ elim (text_next_line_equals start end_embed 0) [
      | none ↦ refused einval
      | some last ↦ embedded (between (drop 1 start.end) last.beg)
    ]
  ]
]

unfoldable pub unit_of_provider : Bytes → TextLine → Script
unit_of_provider name line =
    let facilities = (span isblank (drop (length lsb_provides) (between line.beg line.end))).1 in
    if provides name facilities then unit_behind line else refused enoent

-- sysvinit_parse_init_script up to its call of service_from_unit_file.
unfoldable pub embedded_unit : Bytes → Bytes → Script
embedded_unit name txt = elim (text_first_line_equals txt lsb_begin_init_info 0) [
  | none ↦ refused einval
  | some line ↦ elim (text_next_line_prefix line lsb_provides 0) [
    | none ↦ refused einval
    | some line' ↦ unit_of_provider name line'
  ]
]

-- %-22s and %-21s
unfoldable pub padded : ℕ → Bytes → Bytes
padded width s = s ++ replicate (width - length s) b' '

-- "# %-22s%s\n", and the line of a list; lines stand without their newline.
unfoldable pub field : Bytes → Bytes → Bytes
field key v = codes "# " ++ (padded 22 key ++ v)

unfoldable pub spaced : List Bytes → Bytes
spaced [] = []
spaced (s ∷ l) = b' ' ∷ (s ++ spaced l)

unfoldable pub list_field : Bytes → List Bytes → List Bytes
list_field key [] = []
list_field key (s ∷ l) = (codes "# " ++ (padded 21 key ++ spaced (s ∷ l))) ∷ []

unfoldable pub description_field : Option Bytes → List Bytes
description_field none = []
description_field (some v) = field (codes "Short-Description") v ∷ []

-- The lines of the comment block behind Provides, and those between it and the unit file.
unfoldable pub block_lines : List Bytes → List Bytes → Option Bytes → List Bytes
block_lines required should description =
    list_field (codes "Required-Start:") required
    ++ (list_field (codes "Should-Start:") should
        ++ (field (codes "Default-Start:") (codes "2 3 4 5") ∷ description_field description))

unfoldable pub exec_line : Bytes → Bytes → Bytes
exec_line self name = codes "exec " ++ (self ++ (codes " -u \"$0\" " ++ (name ++ codes " \"$@\"")))

unfoldable pub head_lines : Bytes → Bytes → List Bytes → List Bytes → Option Bytes → List Bytes
head_lines self name required should description =
    codes "#!/bin/sh"
    ∷ []
    ∷ lsb_begin_init_info
    ∷ field (codes "Provides:") name
    ∷ (block_lines required should description
        ++ (lsb_end_init_info ∷ [] ∷ exec_line self name ∷ [] ∷ begin_embed ∷ []))

unfoldable pub script_text : Bytes → Bytes → List Bytes → List Bytes → Option Bytes → Bytes → Bytes
script_text self name required should description unit =
    unlines (head_lines self name required should description)
    ++ (unit ++ (end_embed ++ (b'\n' ∷ [])))

-- none where freed memory is read.
unfoldable pub service_to_byte_array :
    (h : HashTable) → Bytes → Bytes → List Bytes → List Bytes → ServiceUnit h → Option Bytes
service_to_byte_array h self name required should u = elim (unit_to_byte_array h u) [
  | none ↦ none
  | some unit ↦ elim (unit_get_value h u (codes "Unit") (codes "Description")) [
    | freed ↦ none
    | missing ↦ some (script_text self name required should none unit)
    | value v ↦ some (script_text self name required should (some v) unit)
  ]
]
