-- ===== src/UnitFile.antt =====
-- src/common/unit.c: units, which are sections of key-value pairs. A unit and its sections are hash
-- tables. An element that was freed while it stands in a table is `dangling`: what the code does with
-- it is not determined, and the model says of the other elements what holds where they are intact.
pub mod Values
mod Tests
use sysvkit.Base.{
  Bool, true, false, ◌&&◌, Option, none, some, List, [], ◌∷◌, ◌++◌, Bytes, codes, if◌then◌else◌,
}
use sysvkit.Table.{HashTable}
use sysvkit.Strbool.{strbool}

-- The pair that an element refers to: its value, or freed memory.
pub data Slot : Type 0 where
  live : Bytes → Slot
  dangling : Slot

-- What a read comes to: a value, NULL with ENOENT, or a use of freed memory.
pub data Value : Type 0 where
  value : Bytes → Value
  missing : Value
  freed : Value

abbrev pub slot_value : Option Slot → Value
slot_value none = missing
slot_value (some (live v)) = value v
slot_value (some dangling) = freed

module _ (h : HashTable) where
  open h use {Table, make, get, put, entries}

  abbrev pub Section : Type 0
  Section = Table Slot

  pub record ServiceUnit : Type 0 where
    pub name : Bytes
    pub sections : Table Section

  unfoldable pub unit_create : Bytes → ServiceUnit
  unit_create name = record { name = name; sections = make Section }

  -- The section with the given name, which is made if it does not exist yet.
  unfoldable pub section_of : ServiceUnit → Bytes → Section
  section_of u section = elim (get Section section u.sections) [ none ↦ make Slot | some s ↦ s ]

  -- The pairs of a section after an update of a key that held `old`; none where freed memory is used:
  -- the old pair is freed in the end, and a pair that is deleted stays in the table.
  unfoldable pub update_pairs : Section → Bytes → Option Slot → Option Bytes → Bool → Option Section
  update_pairs s key (some dangling) v append = none
  update_pairs s key none none append = some s
  update_pairs s key (some (live o)) none append = some (put Slot key dangling s)
  update_pairs s key none (some v) append = some (put Slot key (live v) s)
  update_pairs s key (some (live o)) (some v) append =
      some (put Slot key (live (if append then o ++ (b' ' ∷ v) else v)) s)

  abbrev pub exists : Option Slot → Bool
  exists none = false
  exists (some e) = true

  -- The result is whether the key existed, and the unit after the call.
  unfoldable pub unit_update_value :
      ServiceUnit → Bytes → Bytes → Option Bytes → Bool → Option (Bool × ServiceUnit)
  unit_update_value u section key v append =
      let s = section_of u section in
      let old = get Slot key s in
      elim (update_pairs s key old v append) [
        | none ↦ none
        | some s' ↦ some (exists old, record u { sections = put Section section s' u.sections })
      ]

  unfoldable pub unit_set_value : ServiceUnit → Bytes → Bytes → Bytes → Option (Bool × ServiceUnit)
  unit_set_value u section key v = unit_update_value u section key (some v) false

  unfoldable pub unit_append_value :
      ServiceUnit → Bytes → Bytes → Bytes → Option (Bool × ServiceUnit)
  unit_append_value u section key v = unit_update_value u section key (some v) true

  unfoldable pub unit_delete_key : ServiceUnit → Bytes → Bytes → Option (Bool × ServiceUnit)
  unit_delete_key u section key = unit_update_value u section key none false

  unfoldable pub unit_get_value : ServiceUnit → Bytes → Bytes → Value
  unit_get_value u section key = elim (get Section section u.sections) [
    | none ↦ missing
    | some s ↦ slot_value (get Slot key s)
  ]

  -- strbool of the value, of NULL where there is none; none where freed memory is used.
  unfoldable pub unit_get_bool : ServiceUnit → Bytes → Bytes → Option (Option Bool)
  unit_get_bool u section key = elim (unit_get_value u section key) [
    | value v ↦ some (strbool (some v))
    | missing ↦ some (strbool none)
    | freed ↦ none
  ]

  -- unit_to_byte_array: the text of the pairs, and of the sections, in the tables' order; none where
  -- freed memory is read.
  unfoldable pub pairs_text : List (Bytes × Slot) → Option Bytes
  pairs_text [] = some []
  pairs_text ((k, live v) ∷ es) = elim (pairs_text es) [
    | none ↦ none
    | some rest ↦ some (k ++ (b'=' ∷ (v ++ (b'\n' ∷ rest))))
  ]
  pairs_text ((k, dangling) ∷ es) = none

  unfoldable pub sections_text : List (Bytes × Section) → Option Bytes
  sections_text [] = some []
  sections_text ((name, s) ∷ es) = elim (pairs_text (entries Slot s)) [
    | none ↦ none
    | some pairs ↦ elim (sections_text es) [
      | none ↦ none
      | some rest ↦ some (b'[' ∷ (name ++ (b']' ∷ b'\n' ∷ (pairs ++ rest))))
    ]
  ]

  unfoldable pub unit_to_byte_array : ServiceUnit → Option Bytes
  unit_to_byte_array u = sections_text (entries Section u.sections)
