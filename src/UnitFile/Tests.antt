-- ===== src/UnitFile/Tests.antt =====
-- Runs of the unit functions, and instances of their theorems, over association lists.
use sysvkit.Base.{
  ◌≡◌, refl, sym, ◌∙◌, Bool, true, ◌&&◌, some, Bytes, codes, bytes_eq, if◌then◌else◌,
}
use sysvkit.Table.{lookup}
use sysvkit.Table.Assoc.{assoc}
use sysvkit.UnitFile.{
  value, ServiceUnit, unit_create, section_of, update_pairs, unit_update_value, unit_set_value,
  unit_append_value, unit_delete_key, unit_get_value, unit_get_bool, pairs_text, sections_text,
  unit_to_byte_array,
}
use sysvkit.UnitFile.Values.{
  updated, AllLive, with_pair, unit_get_value-with_pair, unit_get_value-unit_create, missing_live,
  unit_get_value-unit_update_value,
}

abbrev empty_unit : ServiceUnit assoc
empty_unit = unit_create assoc (codes "u")

abbrev one_pair : ServiceUnit assoc
one_pair = with_pair assoc empty_unit (codes "S") (codes "k") (codes "yes")

empty-AllLive : AllLive assoc empty_unit
empty-AllLive s k e =
    missing_live assoc (sym (unit_get_value-unit_create assoc (codes "u") s k) ∙ e)

one_pair_value : unit_get_value assoc one_pair (codes "S") (codes "k") ≡ value (codes "yes")
unfolding bytes_eq
one_pair_value =
    unit_get_value-with_pair assoc empty_unit (codes "S") (codes "k") (codes "yes") (codes "S")
      (codes "k")

-- Whatever a run goes through.
runs : Unit {0}
unfolding bytes_eq lookup assoc unit_create section_of update_pairs unit_update_value unit_set_value
    unit_append_value unit_delete_key unit_get_value unit_get_bool pairs_text sections_text
    unit_to_byte_array
runs = tt

written : unit_to_byte_array assoc one_pair ≡ some (codes "[S]\nk=yes\n")
unfolding runs
written = refl

unit_get_value-unit_update_value_example :
    (existed : Bool) × (u' : ServiceUnit assoc) × (unit_update_value assoc empty_unit
        (codes "S")
        (codes "k")
        (some (codes "v"))
        true
      ≡ some (existed, u'))
    × ((s k : Bytes)
        → unit_get_value assoc u' s k ≡ (
            if bytes_eq (codes "S") s && bytes_eq (codes "k") k
            then value
                (updated (unit_get_value assoc empty_unit (codes "S") (codes "k")) true (codes "v"))
            else unit_get_value assoc empty_unit s k))
    × AllLive assoc u'
unit_get_value-unit_update_value_example =
    unit_get_value-unit_update_value assoc empty_unit (codes "S") (codes "k") (codes "v") true
      empty-AllLive
