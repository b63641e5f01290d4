-- ===== src/Service/Convert.antt =====
-- src/sysvrun/sysvinit.c and src/sysvrun/service.c: services read from init scripts and from files, and
-- a service that is converted to an init script.
use mathlib.Core.Option.{some-injective}
use sysvkit.Base.{
  ℕ, ◌≡◌, refl, sym, ap, subst, ◌∙◌, Bool, true, false, ◌&&◌, Option, none, some, List, ◌∷◌, Bytes,
  codes, ◌==◌, Stops, if◌then◌else◌, All,
}
use sysvkit.Text.Lines.{IsLine, unlines}
use sysvkit.Text.Search.Skip.{IsOther}
use sysvkit.Table.{HashTable}
use sysvkit.UnitFile.{
  Value, value, missing, freed, Section, ServiceUnit, unit_get_value, unit_to_byte_array,
}
use sysvkit.Systemd.{isblank}
use sysvkit.Systemd.RoundTrip.{AreNormalSections, systemd_parse_unit_file-unit_to_byte_array}
use sysvkit.Sysvinit.{
  end_embed, embedded, refused, embedded_unit, script_text, head_lines, service_to_byte_array,
}
use sysvkit.Sysvinit.RoundTrip.{embedded_unit-script_text}
use sysvkit.Sysvinit.ScriptLines.{Description}
use sysvkit.Sysvinit.UnitLines.{
  unit_to_byte_array-unlines, value-IsLine, IsNormalValue, unit_get_value-IsNormalValue,
}
use sysvkit.Service.Types.{Service}
use sysvkit.Service.Settings.{Loaded, rejected, service_settings, service_from_unit_file}

module _ (h : HashTable) (ends_with : Bytes → Bytes → Bool) where
  open h use {Table, get, entries}

  unfoldable pub sysvinit_parse_init_script : ℕ → Bytes → Bytes → Loaded Service
  sysvinit_parse_init_script errno name txt = elim (embedded_unit name txt) [
    | refused e ↦ rejected
    | embedded unit ↦ service_from_unit_file h ends_with errno name unit
  ]

  -- txt->len > 3 && txt->beg[0] == '#' && txt->beg[1] == '!'
  abbrev pub is_script : Bytes → Bool
  is_script (a ∷ b ∷ c ∷ d ∷ s) = a == b'#' && b == b'!'
  is_script _ = false

  -- service_from_file, by the file's text.
  unfoldable pub service_from_file : ℕ → Bytes → Bytes → Loaded Service
  service_from_file errno name txt =
      if is_script txt
      then sysvinit_parse_init_script errno name txt
      else service_from_unit_file h ends_with errno name txt

  -- A service that is read back from a unit's text is read from the unit.
  service_from_unit_file-text :
      (errno : ℕ) (name : Bytes) (u : ServiceUnit h)
      → AreNormalSections h (entries (Section h) u.sections)
      → (text : Bytes) × (unit_to_byte_array h u ≡ some text)
        × (service_from_unit_file h ends_with errno name text
            ≡ service_settings ends_with errno name (unit_get_value h u))
  unfolding service_from_unit_file
  service_from_unit_file-text errno name u normal =
      let (text, u', texts, parsed_to, values) =
        systemd_parse_unit_file-unit_to_byte_array h u name normal in
      (
        text,
        texts,
        rw (service_from_unit_file, parsed_to)
            (ap (service_settings ends_with errno name) (λ i s k. values s k i)),
      )

  -- The script begins with #!.
  is_script-script_text :
      (self name : Bytes) (required should : List Bytes) (d : Option Bytes) (unit : Bytes)
      → is_script (script_text self name required should d unit) ≡ true
  unfolding script_text head_lines
  is_script-script_text self name required should d unit = refl

  -- A service converted to an init script and read back from it is the service that is read from
  -- its unit, where the names of the unit's sections and keys are ones that the parser takes, its
  -- values are normal, the service's name does not begin with a blank, and no name or path has a
  -- newline or a NUL in it.
  pub service_from_file-service_to_byte_array :
      (errno : ℕ) (self name : Bytes) (required should : List Bytes) (u : ServiceUnit h)
      → AreNormalSections h (entries (Section h) u.sections)
      → IsLine self
      → IsLine name
      → Stops isblank name
      → All IsLine required
      → All IsLine should
      → (text : Bytes) × (service_to_byte_array h self name required should u ≡ some text)
        × (service_from_file errno name text
            ≡ service_settings ends_with errno name (unit_get_value h u))
  unfolding service_from_file sysvinit_parse_init_script service_to_byte_array
  service_from_file-service_to_byte_array errno self name required should u normal ls ln st lr lsh =
      let (lines, texts, others) = unit_to_byte_array-unlines h u normal in
      let (text, texts', read) = service_from_unit_file-text errno name u normal in
      let same : text ≡ unlines lines = some-injective text (unlines lines) (sym texts' ∙ texts) in
      go lines texts others
        (subst
          (λ t.
            service_from_unit_file h ends_with errno name t
            ≡ service_settings ends_with errno name (unit_get_value h u))
          same read)
        (unit_get_value h u (codes "Unit") (codes "Description")) refl
        (unit_get_value-IsNormalValue h u (codes "Unit") (codes "Description") normal)
    where
      from_script :
          (d : Option Bytes) (lines : List Bytes)
          → Description d
          → All (IsOther end_embed) lines
          → service_from_file errno name (script_text self name required should d (unlines lines))
            ≡ service_from_unit_file h ends_with errno name (unlines lines)
      from_script d lines hd others =
          rw
            (
              service_from_file,
              is_script-script_text self name required should d (unlines lines),
              sysvinit_parse_init_script,
              embedded_unit-script_text self name required should d lines ls ln st lr lsh hd others,
            )
            refl

      go :
          (lines : List Bytes)
          → unit_to_byte_array h u ≡ some (unlines lines)
          → All (IsOther end_embed) lines
          → service_from_unit_file h ends_with errno name (unlines lines)
            ≡ service_settings ends_with errno name (unit_get_value h u)
          → (d : Value) → unit_get_value h u (codes "Unit") (codes "Description") ≡ d
          → IsNormalValue h d
          → (text : Bytes) × (service_to_byte_array h self name required should u ≡ some text)
            × (service_from_file errno name text
                ≡ service_settings ends_with errno name (unit_get_value h u))
      go lines texts others read missing e n = (
        script_text self name required should none (unlines lines),
        rw (service_to_byte_array, texts, e) refl,
        from_script none lines tt others ∙ read,
      )
      go lines texts others read (value v) e n = (
        script_text self name required should (some v) (unlines lines),
        rw (service_to_byte_array, texts, e) refl,
        from_script (some v) lines (value-IsLine v n) others ∙ read,
      )
      go lines texts others read freed e n = absurd n
