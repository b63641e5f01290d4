-- ===== src/Environment/Updates.antt =====
-- Variables that are set without overwrite, put as strings, and removed.
use sysvkit.Base.{
  ◌≡◌, ◌≢◌, refl, subst, sym, ◌∙◌, Bool, true, false, Option, none, some, List, [], ◌∷◌, ◌++◌,
  Bytes, bytes_eq, bytes_eq_refl, if◌then◌else◌, Bool-cases, inl, inr, span-append, All,
}
use sysvkit.Table.{HashTable}
use sysvkit.UnitFile.{Slot, live, dangling, Value, value, missing, freed, slot_value}
use sysvkit.Environment.{
  before_equals, Environment, set_over, environment_set, remove_key, environment_remove_keys,
  put_over, put_replacing, environment_put, environment_get,
}
use sysvkit.Environment.Values.{IsLiveEnvironment, environment_get-put}

abbrev pub mentions : Bytes → List Bytes → Bool
mentions k [] = false
mentions k (j ∷ l) = if bytes_eq j k then true else mentions k l

module _ (h : HashTable) where
  open h use {
    Table, make, get, put, pop, entries, get-make, get-put, get-pop, lookup-entries,
    entries-Distinct,
  }

  -- Setting a variable that exists without overwrite returns that it exists, as documented, but frees
  -- the element that stays in the table: the variable's value is then freed memory, and so is what the
  -- next call that sets it frees.
  pub environment_set-dangling :
      (env : Environment h) (name o v : Bytes)
      → environment_get h env name ≡ value o
      → (env' : Environment h) × (environment_set h env name v false ≡ some (true, env'))
        × (environment_get h env' name ≡ freed)
        × ((w : Bytes) (overwrite : Bool) → environment_set h env' name w overwrite ≡ none)
  unfolding environment_set environment_get set_over
  environment_set-dangling env name o v has = (
    put Slot name dangling env,
    kept (get Slot name env) has,
    environment_get-put h env name name dangling ∙ rw (bytes_eq_refl name) refl,
    λ w overwrite.
        rw (environment_set, get-put Slot name name dangling env, bytes_eq_refl name, set_over)
          refl,
  )
    where
      kept :
          (s : Option Slot)
          → slot_value s ≡ value o
          → set_over h s env name v false ≡ some (true, put Slot name dangling env)
      kept none e = cc
      kept (some (live x)) e = unfold set_over in refl
      kept (some dangling) e = cc

  -- Putting a string NAME=VALUE replaces the variable whether overwrite is true or not, since the lookup
  -- is of the whole string: if no variable is named by the whole string, then the variable has the value
  -- afterwards, the others have theirs, and the result is whether it existed.
  pub environment_put-replaces :
      (env : Environment h) (name v : Bytes) (overwrite : Bool)
      → All (λ c. before_equals c ≡ true) name
      → environment_get h env (name ++ (b'=' ∷ v)) ≡ missing
      → environment_get h env name ≢ freed
      → (existed : Bool) × (env' : Environment h) × (environment_put h env
            (name ++ (b'=' ∷ v))
            overwrite
          ≡ some (existed, env'))
        × ((k : Bytes)
            → environment_get h env' k
              ≡ (if bytes_eq name k then value v else environment_get h env k))
  unfolding environment_put environment_get
  environment_put-replaces env name v overwrite hn unknown alive =
      let (existed, done) = replaced (get Slot name env) alive in
      (
        existed,
        put Slot name (live v) env,
        rw (environment_put, span-append before_equals name (b'=' ∷ v) hn refl)
            (found (get Slot (name ++ (b'=' ∷ v)) env) unknown ∙ done),
        λ k. environment_get-put h env name k (live v),
      )
    where
      replaced :
          (o : Option Slot)
          → slot_value o ≢ freed
          → (existed : Bool) × (put_replacing h o env name v
              ≡ some (existed, put Slot name (live v) env))
      replaced none a = (false, unfold put_replacing in refl)
      replaced (some (live x)) a = (true, unfold put_replacing in refl)
      replaced (some dangling) a = absurd (a refl)

      found :
          (o : Option Slot)
          → slot_value o ≡ missing
          → put_over h o env (name ++ (b'=' ∷ v)) name v overwrite
            ≡ put_replacing h (get Slot name env) env name v
      found none e = unfold put_over in refl
      found (some (live x)) e = cc
      found (some dangling) e = cc

  environment_get-pop :
      (env : Environment h) (name k : Bytes)
      → environment_get h (pop Slot name env) k
        ≡ (if bytes_eq name k then missing else environment_get h env k)
  unfolding environment_get
  environment_get-pop env name k = elim (Bool-cases (bytes_eq name k)) [
    | inl x ↦ rw (get-pop Slot k name env, x) refl
    | inr x ↦ rw (get-pop Slot k name env, x) refl
  ]

  removable :
      (env : Environment h) (name : Bytes)
      → environment_get h env name ≢ freed
      → remove_key h env name (get Slot name env) ≡ some (pop Slot name env)
  unfolding environment_get remove_key
  removable env name alive = go (get Slot name env) alive
    where
      go :
          (o : Option Slot)
          → slot_value o ≢ freed
          → remove_key h env name o ≡ some (pop Slot name env)
      go none a = refl
      go (some (live v)) a = refl
      go (some dangling) a = absurd (a refl)

  -- Removing keys leaves the other variables, and none with one of the keys.
  pub environment_get-environment_remove_keys :
      (env : Environment h) (l : List Bytes)
      → IsLiveEnvironment h env
      → (env' : Environment h) × (environment_remove_keys h env l ≡ some env')
        × ((k : Bytes)
            → environment_get h env' k
              ≡ (if mentions k l then missing else environment_get h env k))
  unfolding environment_remove_keys
  environment_get-environment_remove_keys env [] alive = (env, refl, λ k. refl)
  environment_get-environment_remove_keys env (name ∷ l) alive =
      let (env', removed, values) =
        environment_get-environment_remove_keys (pop Slot name env) l (λ k.
          subst (λ w. w ≢ freed) (sym (environment_get-pop env name k))
            (missing_or (bytes_eq name k) (alive k))) in
      (
        env',
        rw (environment_remove_keys, removable env name (alive name)) removed,
        λ k.
            values k
            ∙ rw (environment_get-pop env name k)
                (either (bytes_eq name k) (mentions k l) (environment_get h env k)),
      )
    where
      missing_or : (b : Bool) {w : Value} → w ≢ freed → (if b then missing else w) ≢ freed
      missing_or true a = λ e. cc
      missing_or false a = a

      either :
          (b c : Bool) (w : Value)
          → (if c then missing else if b then missing else w)
            ≡ (if (if b then true else c) then missing else w)
      either true true w = refl
      either true false w = refl
      either false c w = refl
