-- ===== src/Systemd/Pairs.antt =====
-- The parser on the pairs of a section, as unit_to_byte_array writes them.
use sysvkit.Base.{
  ℕ, zero, suc, ◌+◌, ◌≤◌, ◌<◌, ◌≡◌, ◌≢◌, refl, ap, ◌∙◌, Bool, true, false, ◌&&◌, Option, none, some,
  List, [], ◌∷◌, ◌++◌, append_assoc, Bytes, ltb, bytes_eq, bytes_eq_refl, bytes_eq_sound,
  if◌then◌else◌, length, length-append, arith, inl, inr, Bool-cases,
}
use sysvkit.Table.{HashTable, lookup, Distinct}
use sysvkit.UnitFile.{
  Slot, live, dangling, Value, value, missing, slot_value, ServiceUnit, unit_get_value, pairs_text,
}
use sysvkit.UnitFile.Values.{AllLive, unit_get_value-unit_update_value}
use sysvkit.Systemd.Parse.{store, parse_lines}
use sysvkit.Systemd.Parse.Lines.{IsKey, IsNormal, parse_line-pair}

abbrev pub IsNormalSlot : Slot → Type 0
IsNormalSlot (live v) = IsNormal v
IsNormalSlot dangling = ⊥

abbrev pub AreNormalPairs : List (Bytes × Slot) → Type 0
AreNormalPairs [] = Unit
AreNormalPairs ((k, e) ∷ es) = IsKey k × IsNormalSlot e × AreNormalPairs es

-- The text of a pair.
length-line :
    (key v rest : Bytes)
    → length (key ++ (b'=' ∷ (v ++ (b'\n' ∷ rest))))
      ≡ suc (length key + length v + suc (length rest))
length-line key v rest =
    length-append key (b'=' ∷ (v ++ (b'\n' ∷ rest)))
    ∙ ap (λ n. length key + suc n) (length-append v (b'\n' ∷ rest))
    ∙ omega arith

line-append :
    (key v text rest : Bytes)
    → (key ++ (b'=' ∷ (v ++ (b'\n' ∷ text)))) ++ rest
      ≡ key ++ (b'=' ∷ (v ++ (b'\n' ∷ (text ++ rest))))
line-append key v text rest =
    append_assoc key (b'=' ∷ (v ++ (b'\n' ∷ text))) rest
    ∙ ap (λ t. key ++ (b'=' ∷ t)) (append_assoc v (b'\n' ∷ text) rest)

module _ (h : HashTable) where
  open h use {Table, make, get, put, pop, entries, get-make, lookup-entries, entries-Distinct}

  -- What a key's value is behind pairs: that of the pair, or else the one before.
  abbrev pub over : Option Slot → Value → Value
  over none w = w
  over (some e) w = slot_value (some e)

  -- No pair's key has a value in the unit's section.
  abbrev pub Fresh : Bytes → List (Bytes × Slot) → ServiceUnit h → Type 0
  Fresh section es u = (k : Bytes) → lookup k es ≢ none → unit_get_value h u section k ≡ missing

  -- A pair's value is stored as it is under a key without a value.
  store-fresh :
      (u : ServiceUnit h) (section key v : Bytes)
      → AllLive h u
      → unit_get_value h u section key ≡ missing
      → (u' : ServiceUnit h) × (store h section u key v ≡ some u')
        × ((s k : Bytes)
            → unit_get_value h u' s k
              ≡ (if bytes_eq section s && bytes_eq key k then value v else unit_get_value h u s k))
        × AllLive h u'
  unfolding store
  store-fresh u section key v alive fresh =
      let (existed, u', done, values, alive') =
        unit_get_value-unit_update_value h u section key v (ltb 0 (length v)) alive in
      (u', rw (store, done) refl, λ s k. values s k ∙ rw (fresh) refl, alive')

  if_same : (b : Bool) (w : Value) → w ≡ (if b then w else w)
  if_same true w = refl
  if_same false w = refl

  pub lookup_head :
      {V : Type 0} (key : Bytes) (e : V) (es : List (Bytes × V)) → lookup key ((key, e) ∷ es) ≢ none
  unfolding lookup
  lookup_head key e es = rw (bytes_eq_refl key) (λ eq. cc)

  -- The values after a key's value and further pairs are those after all the pairs.
  merge :
      (same : Bool) (key k v : Bytes) (es : List (Bytes × Slot)) (w : Value)
      → lookup key es ≡ none
      → (if same
          then over (lookup k es) (if same && bytes_eq key k then value v else w)
          else (if same && bytes_eq key k then value v else w))
        ≡ (if same then over (lookup k ((key, live v) ∷ es)) w else w)
  unfolding lookup
  merge false key k v es w none_left = refl
  merge true key k v es w none_left = elim (Bool-cases (bytes_eq key k)) [
    | inl e ↦ rw (e, ← bytes_eq_sound key k e, none_left) refl
    | inr e ↦ rw (e) refl
  ]

  Fresh-store :
      (u u' : ServiceUnit h) (section key v : Bytes) (es : List (Bytes × Slot))
      → Fresh section ((key, live v) ∷ es) u
      → lookup key es ≡ none
      → ((s k : Bytes)
          → unit_get_value h u' s k
            ≡ (if bytes_eq section s && bytes_eq key k then value v else unit_get_value h u s k))
      → Fresh section es u'
  unfolding lookup
  Fresh-store u u' section key v es fresh none_left values k in_es =
      elim (Bool-cases (bytes_eq key k)) [
        | inl e ↦ absurd (in_es (rw (← bytes_eq_sound key k e) none_left))
        | inr e ↦ rw (values section k, bytes_eq_refl section, e) (fresh k (rw (e) in_es))
      ]

  -- The pairs' text is parsed line by line, whatever stands behind it, and sets the pairs.
  abbrev pub PairsParsed : Bytes → ServiceUnit h → List (Bytes × Slot) → Type 0
  PairsParsed section u es =
      (text : Bytes) × (u' : ServiceUnit h) × (pairs_text h es ≡ some text)
      × ((rest : Bytes) (fuel : ℕ)
          → length (text ++ rest) ≤ fuel
          → (fuel' : ℕ) × (parse_lines h fuel section u (text ++ rest)
              ≡ parse_lines h fuel' section u' rest)
            × (length rest ≤ fuel'))
      × ((s k : Bytes)
          → unit_get_value h u' s k ≡ (
              if bytes_eq section s
              then over (lookup k es) (unit_get_value h u s k)
              else unit_get_value h u s k))
      × AllLive h u'

  -- A pair's line.
  parse_lines-pair :
      (section key v rest : Bytes) (u u' : ServiceUnit h) (fuel : ℕ)
      → 0 < length section
      → IsKey key
      → IsNormal v
      → store h section u key v ≡ some u'
      → length (key ++ (b'=' ∷ (v ++ (b'\n' ∷ rest)))) ≤ fuel
      → (fuel' : ℕ) × (parse_lines h fuel section u (key ++ (b'=' ∷ (v ++ (b'\n' ∷ rest))))
          ≡ parse_lines h fuel' section u' rest)
        × (length rest ≤ fuel')
  unfolding parse_lines
  parse_lines-pair section [] v rest u u' fuel hs (_, n, _) hv stored enough = absurd (omega arith)
  parse_lines-pair [] (c ∷ key) v rest u u' fuel hs hk hv stored enough = absurd (omega arith)
  parse_lines-pair (a ∷ section) (c ∷ key) v rest u u' zero hs hk hv stored enough =
      absurd (omega arith)
  parse_lines-pair (a ∷ section) (c ∷ key) v rest u u' (suc fuel) hs hk hv stored enough = (
    fuel,
    rw (parse_lines, parse_line-pair c key v rest hk hv, stored) refl,
    shorter (length (c ∷ key)) (length v) (length-line (c ∷ key) v rest) enough,
  )
    where
      shorter : {a d f : ℕ} (b c : ℕ) → a ≡ suc (b + c + suc d) → a ≤ suc f → d ≤ f
      shorter b c e h = omega arith

  pub pairs-parsed :
      (section : Bytes) (es : List (Bytes × Slot)) (u : ServiceUnit h)
      → 0 < length section
      → AreNormalPairs es
      → Distinct es
      → Fresh section es u
      → AllLive h u
      → PairsParsed section u es
  unfolding pairs_text lookup
  pairs-parsed section [] u hs n d fresh alive = (
    [],
    u,
    refl,
    λ rest fuel enough. (fuel, refl, enough),
    λ s k. if_same (bytes_eq section s) (unit_get_value h u s k),
    alive,
  )
  pairs-parsed section ((key, dangling) ∷ es) u hs (hk, n, ns) d fresh alive = absurd n
  pairs-parsed section ((key, live v) ∷ es) u hs (hk, n, ns) (none_left, d) fresh alive =
      let (u1, stored, values, alive1) =
        store-fresh u section key v alive (fresh key (lookup_head key (live v) es)) in
      let (text, u', texts, lines, values', alive') =
        pairs-parsed section es u1 hs ns d
          (Fresh-store u u1 section key v es fresh none_left values) alive1 in
      (
        key ++ (b'=' ∷ (v ++ (b'\n' ∷ text))),
        u',
        rw (pairs_text, texts) refl,
        λ rest fuel enough.
            (let (f1, e1, le1) =
                parse_lines-pair section key v (text ++ rest) u u1 fuel hs hk n stored
                  (rw (← line-append key v text rest) enough) in
              let (f2, e2, le2) = lines rest f1 le1 in
              (f2, ap (parse_lines h fuel section u) (line-append key v text rest) ∙ e1 ∙ e2, le2)),
        λ s k.
            values' s k
            ∙ rw (values s k)
                (merge (bytes_eq section s) key k v es (unit_get_value h u s k) none_left),
        alive',
      )
