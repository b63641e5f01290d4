-- ===== src/UnitFile/Values.antt =====
-- What a unit's values are after an update.
use sysvkit.Base.{
  ◌≡◌, ◌≢◌, refl, subst, sym, ap, ◌∙◌, Bool, true, false, ◌&&◌, Option, none, some, ◌∷◌, ◌++◌,
  Bytes, bytes_eq, bytes_eq_sound, if◌then◌else◌, Bool-cases, inl, inr,
}
use sysvkit.Table.{HashTable}
use sysvkit.UnitFile.{
  Slot, live, dangling, Value, value, missing, freed, slot_value, ServiceUnit, section_of,
  update_pairs, exists, unit_update_value, unit_get_value, unit_create, Section,
}

-- The value that an update with `v` leaves: appended to the old one, or alone.
abbrev pub updated : Value → Bool → Bytes → Bytes
updated (value o) append v = if append then o ++ (b' ' ∷ v) else v
updated missing append v = v
updated freed append v = v

module _ (h : HashTable) where
  open h use {Table, make, get, put, get-make, get-put}

  -- A read is a read of the section, which is empty where it does not exist.
  pub value_of :
      (u : ServiceUnit h) (s k : Bytes)
      → unit_get_value h u s k ≡ slot_value (get Slot k (section_of h u s))
  unfolding unit_get_value section_of
  value_of u s k = go (get (Section h) s u.sections)
    where
      go :
          (o : Option (Section h))
          → (elim o [ none ↦ missing | some t ↦ slot_value (get Slot k t) ])
            ≡ slot_value (get Slot k (elim o [ none ↦ make Slot | some t ↦ t ]))
      go none = rw (get-make Slot k) refl
      go (some t) = refl

  section_of-put :
      (u : ServiceUnit h) (section s : Bytes) (t : Section h)
      → section_of h (record u { sections = put (Section h) section t u.sections }) s
        ≡ (if bytes_eq section s then t else section_of h u s)
  unfolding section_of bytes_eq
  section_of-put u section s t = elim (Bool-cases (bytes_eq section s)) [
    | inl e ↦ rw (section_of, get-put (Section h) s section t u.sections, e) refl
    | inr e ↦ rw (section_of, get-put (Section h) s section t u.sections, e) refl
  ]

  -- The unit after a pair was put.
  abbrev pub with_pair : ServiceUnit h → Bytes → Bytes → Bytes → ServiceUnit h
  with_pair u section key v = record u {
    sections = put (Section h) section (put Slot key (live v) (section_of h u section)) u.sections;
  }

  pub unit_get_value-with_pair :
      (u : ServiceUnit h) (section key v s k : Bytes)
      → unit_get_value h (with_pair u section key v) s k
        ≡ (if bytes_eq section s && bytes_eq key k then value v else unit_get_value h u s k)
  unit_get_value-with_pair u section key v s k =
      rw
        (
          value_of (with_pair u section key v) s k,
          value_of u s k,
          section_of-put u section s (put Slot key (live v) (section_of h u section)),
        )
        (elim (Bool-cases (bytes_eq section s)) [
          | inl e ↦
              rw
                (
                  e,
                  get-put Slot k key (live v) (section_of h u section),
                  ap (section_of h u) (bytes_eq_sound section s e),
                )
                (go (bytes_eq key k) (get Slot k (section_of h u s)))
          | inr e ↦ rw (e) refl
        ])
    where
      go :
          (b : Bool) (o : Option Slot)
          → slot_value (if b then some (live v) else o) ≡ (if b then value v else slot_value o)
      go true o = refl
      go false o = refl

  -- What an update with a value does, by what the key held.
  pub update-with_pair :
      (u : ServiceUnit h) (section key v : Bytes) (append : Bool)
      → unit_get_value h u section key ≢ freed
      → (existed : Bool) × (unit_update_value h u section key (some v) append
          ≡ some (
            existed,
            with_pair u section key (updated (unit_get_value h u section key) append v),
          ))
  unfolding unit_update_value update_pairs
  update-with_pair u section key v append alive = rw (value_of u section key) (
      go (get Slot key (section_of h u section))
        (subst (λ x. x ≢ freed) (value_of u section key) alive))
    where
      go :
          (o : Option Slot)
          → slot_value o ≢ freed
          → (existed : Bool) × (◌≡◌ {A = Option (Bool × ServiceUnit h)}
              (elim (update_pairs h (section_of h u section) key o (some v) append) [
                | none ↦ none
                | some s' ↦
                    some (exists h o, record u { sections = put (Section h) section s' u.sections })
              ])
              (some (existed, with_pair u section key (updated (slot_value o) append v))))
      go none a = (false, refl)
      go (some (live o)) a = (true, refl)
      go (some dangling) a = absurd (a refl)

  -- No value of the unit is a pair that was freed.
  abbrev pub AllLive : ServiceUnit h → Type 0
  AllLive u = (s k : Bytes) → unit_get_value h u s k ≢ freed

  -- Setting or appending a value in a unit without freed pairs succeeds. Afterwards the key has the
  -- new value, behind the old one and a space when it is appended to an existing one, every other
  -- key of every section has the value that it had, and there is still no freed pair.
  pub unit_get_value-unit_update_value :
      (u : ServiceUnit h) (section key v : Bytes) (append : Bool)
      → AllLive u
      → (existed : Bool) × (u' : ServiceUnit h) × (unit_update_value h u section key (some v) append
          ≡ some (existed, u'))
        × ((s k : Bytes)
            → unit_get_value h u' s k ≡ (
                if bytes_eq section s && bytes_eq key k
                then value (updated (unit_get_value h u section key) append v)
                else unit_get_value h u s k))
        × AllLive u'
  unit_get_value-unit_update_value u section key v append alive =
      let w = updated (unit_get_value h u section key) append v in
      let (existed, done) = update-with_pair u section key v append (alive section key) in
      (
        existed,
        with_pair u section key w,
        done,
        λ s k. unit_get_value-with_pair u section key w s k,
        λ s k e.
            go (bytes_eq section s && bytes_eq key k) w (alive s k)
              (sym (unit_get_value-with_pair u section key w s k) ∙ e),
      )
    where
      go : (b : Bool) (x : Bytes) {y : Value} → y ≢ freed → ¬ ((if b then value x else y) ≡ freed)
      go true x a e = cc
      go false x a e = a e

  pub unit_get_value-unit_create :
      (name s k : Bytes) → unit_get_value h (unit_create h name) s k ≡ missing
  unfolding unit_get_value unit_create
  unit_get_value-unit_create name s k = rw (unit_get_value, get-make (Section h) s) refl

  pub missing_live : missing ≢ freed
  missing_live e = cc
