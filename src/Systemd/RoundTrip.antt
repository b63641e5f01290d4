-- ===== src/Systemd/RoundTrip.antt =====
-- The parser on what unit_to_byte_array writes.
use sysvkit.Base.{
  ℕ, zero, suc, ◌+◌, ◌≤◌, ◌≡◌, ◌≢◌, refl, sym, ◌∙◌, Option, none, some, List, [], ◌∷◌, ◌++◌, Bytes,
  bytes_eq, bytes_eq_sound, if◌then◌else◌, length, length-append, arith, inl, inr, Bool-cases,
}
use sysvkit.Table.{HashTable, lookup, Distinct}
use sysvkit.UnitFile.{
  Slot, Value, missing, slot_value, ServiceUnit, Section, unit_create, unit_get_value,
  sections_text, unit_to_byte_array,
}
use sysvkit.UnitFile.Values.{AllLive, unit_get_value-unit_create, missing_live}
use sysvkit.Systemd.Parse.{parsed, parse_lines, systemd_parse_unit_file}
use sysvkit.Systemd.Parse.Lines.{IsSectionName, parse_line-header}
use sysvkit.Systemd.Pairs.{over, AreNormalPairs, lookup_head, pairs-parsed}

module _ (h : HashTable) where
  open h use {Table, make, get, put, pop, entries, get-make, lookup-entries, entries-Distinct}

  abbrev pub AreNormalSections : List (Bytes × Section h) → Type 0
  AreNormalSections [] = Unit
  AreNormalSections ((name, sec) ∷ es) =
      IsSectionName name × AreNormalPairs (entries Slot sec) × AreNormalSections es

  abbrev pub over_section : Option (Section h) → Bytes → Value → Value
  over_section none k w = w
  over_section (some sec) k w = over h (lookup k (entries Slot sec)) w

  abbrev pub SectionsParsed : ServiceUnit h → List (Bytes × Section h) → Type 0
  SectionsParsed u es =
      (text : Bytes) × (u' : ServiceUnit h) × (sections_text h es ≡ some text)
      × ((section : Bytes) (fuel : ℕ)
          → length text ≤ fuel
          → parse_lines h fuel section u text ≡ parsed u')
      × ((s k : Bytes)
          → unit_get_value h u' s k ≡ over_section (lookup s es) k (unit_get_value h u s k))

  parse_lines-header :
      (section name rest : Bytes) (u : ServiceUnit h) (fuel : ℕ)
      → IsSectionName name
      → length (b'[' ∷ (name ++ (b']' ∷ b'\n' ∷ rest))) ≤ fuel
      → (fuel' : ℕ) × (parse_lines h fuel section u (b'[' ∷ (name ++ (b']' ∷ b'\n' ∷ rest)))
          ≡ parse_lines h fuel' name u rest)
        × (length rest ≤ fuel')
  unfolding parse_lines
  parse_lines-header section name rest u zero hn enough = absurd (omega arith)
  parse_lines-header section name rest u (suc fuel) hn enough = (
    fuel,
    rw (parse_lines, parse_line-header name rest hn) refl,
    shorter (length name) (length-append name (b']' ∷ b'\n' ∷ rest)) enough,
  )
    where
      shorter : {a d f : ℕ} (b : ℕ) → a ≡ b + suc (suc d) → suc a ≤ suc f → d ≤ f
      shorter b e h = omega arith

  -- A section's own values and those of the sections behind it.
  merge_section :
      (name s k : Bytes) (sec : Section h) (es : List (Bytes × Section h)) (w : Value)
      → lookup name es ≡ none
      → over_section
          (lookup s es)
          k
          (if bytes_eq name s then over h (lookup k (entries Slot sec)) w else w)
        ≡ over_section (lookup s ((name, sec) ∷ es)) k w
  unfolding lookup
  merge_section name s k sec es w none_left = elim (Bool-cases (bytes_eq name s)) [
    | inl e ↦ rw (e, ← bytes_eq_sound name s e, none_left) refl
    | inr e ↦ rw (e) refl
  ]

  -- No section has a value in the unit.
  abbrev pub FreshSections : List (Bytes × Section h) → ServiceUnit h → Type 0
  FreshSections es u = (s k : Bytes) → lookup s es ≢ none → unit_get_value h u s k ≡ missing

  FreshSections-behind :
      (u u' : ServiceUnit h) (name : Bytes) (sec : Section h) (es : List (Bytes × Section h))
      → FreshSections ((name, sec) ∷ es) u
      → lookup name es ≡ none
      → ((s k : Bytes)
          → unit_get_value h u' s k ≡ (
              if bytes_eq name s
              then over h (lookup k (entries Slot sec)) (unit_get_value h u s k)
              else unit_get_value h u s k))
      → FreshSections es u'
  unfolding lookup
  FreshSections-behind u u' name sec es fresh none_left values s k in_es =
      elim (Bool-cases (bytes_eq name s)) [
        | inl e ↦ absurd (in_es (rw (← bytes_eq_sound name s e) none_left))
        | inr e ↦ rw (values s k, e) (fresh s k (rw (e) in_es))
      ]

  -- The unit's values are those of its entries.
  pub values-entries :
      (u : ServiceUnit h) (s k : Bytes)
      → over_section (lookup s (entries (Section h) u.sections)) k missing ≡ unit_get_value h u s k
  unfolding unit_get_value
  values-entries u s k =
      rw (lookup-entries (Section h) s u.sections) (in_section (get (Section h) s u.sections))
    where
      in_pairs : (o : Option Slot) → over h o missing ≡ slot_value o
      in_pairs none = refl
      in_pairs (some e) = refl

      in_section :
          (o : Option (Section h))
          → over_section o k missing
            ≡ (elim o [ none ↦ missing | some sec ↦ slot_value (get Slot k sec) ])
      in_section none = refl
      in_section (some sec) = rw (lookup-entries Slot k sec) (in_pairs (get Slot k sec))

  sections-parsed :
      (es : List (Bytes × Section h)) (u : ServiceUnit h)
      → AreNormalSections es
      → Distinct es
      → FreshSections es u
      → AllLive h u
      → SectionsParsed u es
  unfolding sections_text lookup parse_lines
  sections-parsed [] u n d fresh alive = ([], u, refl, λ section fuel enough. refl, λ s k. refl)
  sections-parsed ((name, sec) ∷ es) u (hn, np, ns) (none_left, d) fresh alive =
      let (pairs, u1, pairs_are, lines, values, alive1) =
        pairs-parsed h name (entries Slot sec) u (hn.1) np (entries-Distinct Slot sec)
          (λ k in_es. fresh name k (lookup_head h name sec es)) alive in
      let (text, u', texts, parsed_to, values') =
        sections-parsed es u1 ns d (FreshSections-behind u u1 name sec es fresh none_left values)
          alive1 in
      (
        b'[' ∷ (name ++ (b']' ∷ b'\n' ∷ (pairs ++ text))),
        u',
        rw (sections_text, pairs_are, texts) refl,
        λ section fuel enough.
            (let (f1, e1, le1) = parse_lines-header section name (pairs ++ text) u fuel hn enough in
              let (f2, e2, le2) = lines text f1 le1 in e1 ∙ e2 ∙ parsed_to name f2 le2),
        λ s k.
            values' s k
            ∙ rw (values s k) (merge_section name s k sec es (unit_get_value h u s k) none_left),
      )

  -- Parsing what unit_to_byte_array writes for a unit gives the unit back: if the names of its sections
  -- and its keys are ones that the parser takes and its values are normal (printable, no space at
  -- either end or behind another, no backslash at the end, short enough for the buffer), then the
  -- unit is written, its text is parsed, and the parsed unit has the same value for every key of
  -- every section, none where there is none.
  pub systemd_parse_unit_file-unit_to_byte_array :
      (u : ServiceUnit h) (name : Bytes)
      → AreNormalSections (entries (Section h) u.sections)
      → (text : Bytes) × (u' : ServiceUnit h) × (unit_to_byte_array h u ≡ some text)
        × (systemd_parse_unit_file h name text ≡ parsed u')
        × ((s k : Bytes) → unit_get_value h u' s k ≡ unit_get_value h u s k)
  unfolding unit_to_byte_array systemd_parse_unit_file
  systemd_parse_unit_file-unit_to_byte_array u name normal =
      let start = unit_create h name in
      let (text, u', texts, parsed_to, values) =
        sections-parsed (entries (Section h) u.sections) start normal
          (entries-Distinct (Section h) u.sections)
          (λ s k in_es. unit_get_value-unit_create h name s k)
          (λ s k e. absurd (missing_live h (sym (unit_get_value-unit_create h name s k) ∙ e))) in
      (
        text,
        u',
        texts,
        parsed_to [] (length text) (omega arith),
        λ s k. values s k ∙ rw (unit_get_value-unit_create h name s k) (values-entries u s k),
      )
