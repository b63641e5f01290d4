-- ===== src/Environment/Values.antt =====
-- The variables of an environment after its operations.
use sysvkit.Base.{
  ◌≡◌, ◌≢◌, refl, subst, sym, ap, ◌∙◌, Bool, true, false, Option, none, some, List, [], ◌∷◌, Bytes,
  bytes_eq, bytes_eq_refl, bytes_eq_sound, if◌then◌else◌, Bool-cases, inl, inr,
}
use sysvkit.Table.{HashTable, lookup, Distinct}
use sysvkit.UnitFile.{Slot, live, dangling, Value, value, missing, freed, slot_value}
use sysvkit.Environment.{
  Environment, environment_create, set_over, environment_set, merge_entries, environment_merge,
  environment_clone, environment_get,
}

-- No element was freed.
abbrev pub AreLive : List (Bytes × Slot) → Type 0
AreLive [] = Unit
AreLive ((k, live v) ∷ es) = AreLive es
AreLive ((k, dangling) ∷ es) = ⊥

-- The value of the entries, or else the one before.
abbrev pub over : Option Slot → Value → Value
over none w = w
over (some e) w = slot_value (some e)

module _ (h : HashTable) where
  open h use {
    Table, make, get, put, pop, entries, get-make, get-put, get-pop, lookup-entries,
    entries-Distinct,
  }

  abbrev pub IsLiveEnvironment : Environment h → Type 0
  IsLiveEnvironment env = (k : Bytes) → environment_get h env k ≢ freed

  pub environment_get-put :
      (env : Environment h) (name k : Bytes) (e : Slot)
      → environment_get h (put Slot name e env) k
        ≡ (if bytes_eq name k then slot_value (some e) else environment_get h env k)
  unfolding environment_get
  environment_get-put env name k e = elim (Bool-cases (bytes_eq name k)) [
    | inl x ↦ rw (get-put Slot k name e env, x) refl
    | inr x ↦ rw (get-put Slot k name e env, x) refl
  ]

  -- Setting a variable with overwrite gives it the value and leaves the others.
  environment_set-overwrite :
      (env : Environment h) (name v : Bytes)
      → environment_get h env name ≢ freed
      → (existed : Bool) × (environment_set h env name v true
          ≡ some (existed, put Slot name (live v) env))
  unfolding environment_set set_over environment_get
  environment_set-overwrite env name v alive = go (get Slot name env) alive
    where
      go :
          (o : Option Slot)
          → slot_value o ≢ freed
          → (existed : Bool) × (set_over h o env name v true
              ≡ some (existed, put Slot name (live v) env))
      go none a = (false, refl)
      go (some (live o)) a = (true, refl)
      go (some dangling) a = absurd (a refl)

  live_after : (b : Bool) (v : Bytes) {w : Value} → w ≢ freed → (if b then value v else w) ≢ freed
  live_after true v a = λ e. cc
  live_after false v a = a

  -- Merging entries with overwrite.
  merge_entries-over :
      (es : List (Bytes × Slot)) (env : Environment h)
      → AreLive es
      → Distinct es
      → IsLiveEnvironment env
      → (env' : Environment h) × (merge_entries h env es true ≡ some env')
        × ((k : Bytes) → environment_get h env' k ≡ over (lookup k es) (environment_get h env k))
  unfolding merge_entries lookup
  merge_entries-over [] env al d alive = (env, refl, λ k. refl)
  merge_entries-over ((name, dangling) ∷ es) env al d alive = absurd al
  merge_entries-over ((name, live v) ∷ es) env al (none_left, d) alive =
      let (existed, done) = environment_set-overwrite env name v (alive name) in
      let env1 = put Slot name (live v) env in
      let (env', merged, values) = merge_entries-over es env1 al d (λ k.
        subst (λ w. w ≢ freed) (sym (environment_get-put env name k (live v)))
          (live_after (bytes_eq name k) v (alive k))) in
      (
        env',
        rw (merge_entries, done) merged,
        λ k.
            values k
            ∙ rw (environment_get-put env name k (live v))
                (step name k v es (environment_get h env k) none_left),
      )
    where
      step :
          (name k v : Bytes) (es : List (Bytes × Slot)) (w : Value)
          → lookup name es ≡ none
          → over (lookup k es) (if bytes_eq name k then value v else w)
            ≡ over (lookup k ((name, live v) ∷ es)) w
      step name k v es w none_left = elim (Bool-cases (bytes_eq name k)) [
        | inl e ↦ rw (e, ← bytes_eq_sound name k e, none_left) refl
        | inr e ↦ rw (e) refl
      ]

  AreLive-entries :
      (es : List (Bytes × Slot))
      → Distinct es
      → ((k : Bytes) → slot_value (lookup k es) ≢ freed)
      → AreLive es
  unfolding lookup
  AreLive-entries [] d alive = tt
  AreLive-entries ((name, dangling) ∷ es) d alive =
      alive name (rw (lookup, bytes_eq_refl name) refl)
  AreLive-entries ((name, live v) ∷ es) (none_left, d) alive = AreLive-entries es d later
    where
      later : (k : Bytes) → slot_value (lookup k es) ≢ freed
      later k = elim (Bool-cases (bytes_eq name k)) [
        | inl e ↦ rw (← bytes_eq_sound name k e, none_left) (λ x. cc)
        | inr e ↦ let a = alive k in λ x. a (rw (lookup, e) x)
      ]

  -- Merging an environment into another with overwrite gives each variable of the merged one its value
  -- there, and leaves every other variable; a clone has the variables of the original. This needs that
  -- neither environment has an element that was freed.
  pub environment_get-environment_merge :
      (env other : Environment h)
      → IsLiveEnvironment env
      → IsLiveEnvironment other
      → ((env' : Environment h) × (environment_merge h env other true ≡ some env')
          × ((k : Bytes)
              → environment_get h env' k ≡ over (get Slot k other) (environment_get h env k)))
        × ((clone : Environment h) × (environment_clone h other ≡ some clone)
            × ((k : Bytes) → environment_get h clone k ≡ environment_get h other k))
  unfolding environment_merge environment_clone environment_create
  environment_get-environment_merge env other alive other_alive =
      let (env', merged, values) =
        merge_entries-over (entries Slot other) env all_live (entries-Distinct Slot other) alive in
      let (clone, cloned, same) =
        merge_entries-over (entries Slot other) (make Slot) all_live (entries-Distinct Slot other)
          fresh in
      (
        (
          env',
          merged,
          λ k. values k ∙ ap (λ o. over o (environment_get h env k)) (lookup-entries Slot k other),
        ),
        (
          clone,
          cloned,
          λ k.
              same k
              ∙ ap (λ o. over o (environment_get h (make Slot) k)) (lookup-entries Slot k other)
              ∙ cloned_value k,
        ),
      )
    where
      all_live : AreLive (entries Slot other)
      all_live = AreLive-entries (entries Slot other) (entries-Distinct Slot other) (λ k.
          subst (λ o. slot_value o ≢ freed) (sym (lookup-entries Slot k other))
            (unfold environment_get in other_alive k))

      fresh : IsLiveEnvironment (make Slot)
      fresh k = unfold environment_get in rw (get-make Slot k) (λ x. cc)

      over_missing : (o : Option Slot) → over o missing ≡ slot_value o
      over_missing none = refl
      over_missing (some e) = refl

      cloned_value :
          (k : Bytes)
          → over (get Slot k other) (environment_get h (make Slot) k) ≡ environment_get h other k
      cloned_value k =
          unfold environment_get in rw (get-make Slot k) (over_missing (get Slot k other))
