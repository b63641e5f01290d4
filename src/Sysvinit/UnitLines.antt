-- ===== src/Sysvinit/UnitLines.antt =====
-- The lines of a unit's text, none of which ends an embedded unit file.
use sysvkit.Base.{
  ℕ, ◌≡◌, refl, sym, ap, true, false, some, List, [], ◌∷◌, ◌++◌, append_assoc, Bytes, bytes_eq,
  ◌==◌, arith, Bool-cases, inl, inr, subst, All, All-append,
}
use sysvkit.Text.{in_line}
use sysvkit.Text.Lines.{IsLine, unlines}
use sysvkit.Text.Search.Skip.{IsOther, unlines-append}
use sysvkit.Table.{HashTable, lookup}
use sysvkit.UnitFile.{
  Value, value, missing, freed, unit_get_value, Slot, live, dangling, Section, ServiceUnit,
  pairs_text, sections_text, unit_to_byte_array,
}
use sysvkit.Systemd.Parse.{iskey, issectionname}
use sysvkit.Systemd.Parse.Lines.{IsNormal, NormalFrom}
use sysvkit.Systemd.Pairs.{AreNormalPairs, over}
use sysvkit.Systemd.RoundTrip.{AreNormalSections, over_section, values-entries}
use sysvkit.Sysvinit.{end_embed}

key-IsLine : (s : Bytes) → All (λ c. iskey c ≡ true) s → IsLine s
unfolding in_line
key-IsLine [] h = tt
key-IsLine (c ∷ s) (h, hs) = (ground arith, key-IsLine s hs)

name-IsLine : (s : Bytes) → All (λ c. issectionname c ≡ true) s → IsLine s
unfolding in_line
name-IsLine [] h = tt
name-IsLine (c ∷ s) (h, hs) = (ground arith, name-IsLine s hs)

normal-IsLine : (l : ℕ) (v : Bytes) → NormalFrom l v → IsLine v
unfolding in_line
normal-IsLine l [] h = tt
normal-IsLine l (c ∷ v) (p, s, n) = (ground arith, normal-IsLine c v n)

pub value-IsLine : (v : Bytes) → IsNormal v → IsLine v
value-IsLine [] h = tt
value-IsLine (c ∷ v) (n, m) = normal-IsLine b' ' (c ∷ v) n

-- A line with an equals sign is no string without one.
no_equals :
    (str key v : Bytes)
    → All (λ c. (c == b'=') ≡ false) str
    → bytes_eq str (key ++ (b'=' ∷ v)) ≡ false
unfolding bytes_eq
no_equals [] [] v h = refl
no_equals [] (c ∷ key) v h = refl
no_equals (a ∷ str) [] v (h, hs) = rw (h) refl
no_equals (a ∷ str) (c ∷ key) v (h, hs) = ground (arith, no_equals str key v hs)

pair-IsOther :
    (key v : Bytes)
    → All (λ c. iskey c ≡ true) key
    → IsNormal v
    → IsOther end_embed (key ++ (b'=' ∷ v))
unfolding in_line
pair-IsOther key v hk hv = (
  All-append (λ c. in_line c ≡ true) key (b'=' ∷ v) (key-IsLine key hk) (refl, value-IsLine v hv),
  no_equals end_embed key v (refl, (refl, (refl, (refl, (refl, (refl, (refl, tt))))))),
)

header-IsOther :
    (name : Bytes)
    → All (λ c. issectionname c ≡ true) name
    → IsOther end_embed (b'[' ∷ (name ++ (b']' ∷ [])))
unfolding in_line bytes_eq
header-IsOther name h = (
  (refl, All-append (λ c. in_line c ≡ true) name (b']' ∷ []) (name-IsLine name h) (refl, tt)),
  refl,
)

module _ (h : HashTable) where
  open h use {Table, entries}

  pairs_text-unlines :
      (es : List (Bytes × Slot))
      → AreNormalPairs es
      → (ls : List Bytes) × (pairs_text h es ≡ some (unlines ls)) × All (IsOther end_embed) ls
  unfolding pairs_text
  pairs_text-unlines [] n = ([], refl, tt)
  pairs_text-unlines ((k, dangling) ∷ es) (hk, n, ns) = absurd n
  pairs_text-unlines ((k, live v) ∷ es) (hk, n, ns) =
      let (ls, texts, others) = pairs_text-unlines es ns in
      (
        (k ++ (b'=' ∷ v)) ∷ ls,
        rw (pairs_text, texts) (ap some (sym (append_assoc k (b'=' ∷ v) (b'\n' ∷ unlines ls)))),
        (pair-IsOther k v (hk.0) n, others),
      )

  sections_text-unlines :
      (es : List (Bytes × Section h))
      → AreNormalSections h es
      → (ls : List Bytes) × (sections_text h es ≡ some (unlines ls)) × All (IsOther end_embed) ls
  unfolding sections_text
  sections_text-unlines [] n = ([], refl, tt)
  sections_text-unlines ((name, sec) ∷ es) (hn, n, ns) =
      let (ps, pairs, p_others) = pairs_text-unlines (entries Slot sec) n in
      let (ls, texts, others) = sections_text-unlines es ns in
      (
        (b'[' ∷ (name ++ (b']' ∷ []))) ∷ (ps ++ ls),
        rw (sections_text, pairs, texts, unlines-append ps ls)
            (ap (λ t. some (b'[' ∷ t))
              (sym (append_assoc name (b']' ∷ []) (b'\n' ∷ (unlines ps ++ unlines ls))))),
        (header-IsOther name (hn.0), All-append (IsOther end_embed) ps ls p_others others),
      )

  -- The unit's text is written line by line.
  pub unit_to_byte_array-unlines :
      (u : ServiceUnit h)
      → AreNormalSections h (entries (Section h) u.sections)
      → (ls : List Bytes) × (unit_to_byte_array h u ≡ some (unlines ls))
        × All (IsOther end_embed) ls
  unfolding unit_to_byte_array
  unit_to_byte_array-unlines u n = sections_text-unlines (entries (Section h) u.sections) n

  -- No value, or a normal one.
  abbrev pub IsNormalValue : Value → Type 0
  IsNormalValue (value v) = IsNormal v
  IsNormalValue missing = Unit
  IsNormalValue freed = ⊥

  over-IsNormalValue :
      (es : List (Bytes × Slot)) (k : Bytes)
      → AreNormalPairs es
      → IsNormalValue (over h (lookup k es) missing)
  unfolding lookup
  over-IsNormalValue [] k n = tt
  over-IsNormalValue ((j, dangling) ∷ es) k (hk, n, ns) = absurd n
  over-IsNormalValue ((j, live v) ∷ es) k (hk, n, ns) = elim (Bool-cases (bytes_eq j k)) [
    | inl e ↦ rw (e) n
    | inr e ↦ rw (e) (over-IsNormalValue es k ns)
  ]

  over_section-IsNormalValue :
      (es : List (Bytes × Section h)) (s k : Bytes)
      → AreNormalSections h es
      → IsNormalValue (over_section h (lookup s es) k missing)
  unfolding lookup
  over_section-IsNormalValue [] s k n = tt
  over_section-IsNormalValue ((j, sec) ∷ es) s k (hn, n, ns) = elim (Bool-cases (bytes_eq j s)) [
    | inl e ↦ rw (e) (over-IsNormalValue (entries Slot sec) k n)
    | inr e ↦ rw (e) (over_section-IsNormalValue es s k ns)
  ]

  pub unit_get_value-IsNormalValue :
      (u : ServiceUnit h) (s k : Bytes)
      → AreNormalSections h (entries (Section h) u.sections)
      → IsNormalValue (unit_get_value h u s k)
  unit_get_value-IsNormalValue u s k n =
      subst IsNormalValue (values-entries h u s k)
        (over_section-IsNormalValue (entries (Section h) u.sections) s k n)
