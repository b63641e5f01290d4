-- ===== src/Systemd/Tests.antt =====
-- Runs of the parser and of the quoting rules, and instances of their theorems.
use sysvkit.Base.{◌≡◌, refl, some, [], ◌∷◌, Bytes, codes, bytes_eq, span, arith}
use sysvkit.Table.{lookup}
use sysvkit.Table.Assoc.{assoc}
use sysvkit.UnitFile.{
  ServiceUnit, Section, Slot, live, Value, value, freed, unit_create, section_of, update_pairs,
  unit_update_value, unit_get_value, unit_to_byte_array,
}
use sysvkit.Systemd.{
  systemd_split_quoted, escape, escaped, plain_step, word_step, next_state, split_loop,
}
use sysvkit.Systemd.Quoting.{quoted_text, systemd_split_quoted-quoted_text}
use sysvkit.Systemd.Parse.{
  parsed, push_normal, push, behind_line, scan_step, trimmed, value_end, value_loop, behind_equals,
  equals, behind_key, pair_line, behind_comment, comment_line, header_end, header_line, parse_line,
  store, parse_lines, systemd_parse_unit_file,
}
use sysvkit.Systemd.Parse.Total.{IsResult, systemd_parse_unit_file-IsResult}
use sysvkit.Systemd.RoundTrip.{AreNormalSections, systemd_parse_unit_file-unit_to_byte_array}

-- Whatever a run goes through.
runs : Unit {0}
unfolding bytes_eq span lookup assoc unit_create section_of update_pairs unit_update_value
    unit_get_value escape escaped plain_step word_step next_state split_loop systemd_split_quoted
    push_normal push behind_line scan_step trimmed value_end value_loop behind_equals equals
    behind_key pair_line behind_comment comment_line header_end header_line parse_line store
    parse_lines systemd_parse_unit_file
runs = tt

split : systemd_split_quoted (codes " a 'b c'd  ") ≡ codes "a" ∷ codes "b cd" ∷ []
unfolding runs
split = refl

-- The byte behind a backslash is read again.
escaped_twice : systemd_split_quoted (codes "a\\tb \\x") ≡ codes "a" ∷ codes "tb" ∷ codes "xx" ∷ []
unfolding runs
escaped_twice = refl

-- The value that a key of a section has in a text.
abbrev read_value : Bytes → Bytes → Bytes → Value
read_value txt s k = elim (systemd_parse_unit_file assoc (codes "u") txt) [
  | parsed u ↦ unit_get_value assoc u s k
  | _ ↦ freed
]

continued :
    read_value (codes "[S]\nk = a\\\n# c\n\tb \nk=c\n") (codes "S") (codes "k")
    ≡ value (codes "a b c")
unfolding runs
continued = refl

-- A byte that is no part of a value ends the line silently.
control_byte : read_value (codes "[S]\nk=a\u{8}j=b\n") (codes "S") (codes "j") ≡ value (codes "b")
unfolding runs
control_byte = refl

systemd_split_quoted-quoted_text_example :
    systemd_split_quoted (quoted_text (codes "a b" ∷ [] ∷ codes "c" ∷ []))
    ≡ codes "a b" ∷ [] ∷ codes "c" ∷ []
systemd_split_quoted-quoted_text_example =
    systemd_split_quoted-quoted_text (codes "a b" ∷ [] ∷ codes "c" ∷ [])
      ((refl, (refl, (refl, tt))), (tt, ((refl, tt), tt)))

systemd_parse_unit_file-IsResult_example :
    IsResult assoc (systemd_parse_unit_file assoc (codes "u") (codes "[S]\nk=v\n"))
systemd_parse_unit_file-IsResult_example =
    systemd_parse_unit_file-IsResult assoc (codes "u") (codes "[S]\nk=v\n")

abbrev one_unit : ServiceUnit assoc
one_unit = record {
  name = codes "u";
  sections =
      assoc.put (Section assoc) (codes "S")
        (assoc.put Slot (codes "k") (live (codes "a b")) (assoc.make Slot))
        (assoc.make (Section assoc));
}

one_unit_normal : AreNormalSections assoc (assoc.entries (Section assoc) one_unit.sections)
unfolding runs
one_unit_normal = (
  ((refl, tt), omega arith, omega arith),
  (
    ((refl, tt), omega arith, omega arith),
    ((refl, refl, (refl, refl, (refl, refl, (λ e. omega arith, λ e. omega arith)))), omega arith),
    tt,
  ),
  tt,
)

systemd_parse_unit_file-unit_to_byte_array_example :
    (text : Bytes) × (u' : ServiceUnit assoc) × (unit_to_byte_array assoc one_unit ≡ some text)
    × (systemd_parse_unit_file assoc (codes "n") text ≡ parsed u')
    × ((s k : Bytes) → unit_get_value assoc u' s k ≡ unit_get_value assoc one_unit s k)
systemd_parse_unit_file-unit_to_byte_array_example =
    systemd_parse_unit_file-unit_to_byte_array assoc one_unit (codes "n") one_unit_normal
