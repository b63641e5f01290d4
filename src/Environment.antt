-- ===== src/Environment.antt =====
-- src/common/environment.c: environments, which are hash tables of variables. As in a unit, an element
-- that was freed while it stands in the table is `dangling`.
pub mod Values
pub mod Updates
mod Tests
use sysvkit.Base.{
  ℕ, Bool, true, false, not, Option, none, some, List, [], ◌∷◌, ◌++◌, Bytes, span, ◌==◌,
  if◌then◌else◌, drop,
}
use sysvkit.Table.{HashTable}
use sysvkit.UnitFile.{Slot, live, dangling, Value, slot_value}

abbrev pub before_equals : ℕ → Bool
before_equals c = not (c == b'=')

module _ (h : HashTable) where
  open h use {Table, make, get, put, pop, entries}

  abbrev pub Environment : Type 0
  Environment = Table Slot

  unfoldable pub environment_create : Environment
  environment_create = make Slot

  -- Whether the variable existed, and the environment after the call; none where freed memory is
  -- used. An element that exists is freed, whether it was replaced in the table or not.
  unfoldable pub set_over :
      Option Slot → Environment → Bytes → Bytes → Bool → Option (Bool × Environment)
  set_over (some dangling) env name v overwrite = none
  set_over none env name v overwrite = some (false, put Slot name (live v) env)
  set_over (some (live o)) env name v overwrite =
      some (true, put Slot name (if overwrite then live v else dangling) env)

  unfoldable pub environment_set : Environment → Bytes → Bytes → Bool → Option (Bool × Environment)
  environment_set env name v overwrite = set_over (get Slot name env) env name v overwrite

  -- The loop of environment_merge over the other environment's elements.
  unfoldable pub merge_entries : Environment → List (Bytes × Slot) → Bool → Option Environment
  merge_entries env [] overwrite = some env
  merge_entries env ((name, dangling) ∷ es) overwrite = none
  merge_entries env ((name, live v) ∷ es) overwrite = elim (environment_set env name v overwrite) [
    | none ↦ none
    | some (existed, env') ↦ merge_entries env' es overwrite
  ]

  unfoldable pub environment_merge : Environment → Environment → Bool → Option Environment
  environment_merge env other overwrite = merge_entries env (entries Slot other) overwrite

  unfoldable pub environment_clone : Environment → Option Environment
  environment_clone other = environment_merge environment_create other true

  -- An element that is popped is freed, which none can be twice.
  unfoldable pub remove_key : Environment → Bytes → Option Slot → Option Environment
  remove_key env name (some dangling) = none
  remove_key env name (some (live v)) = some (pop Slot name env)
  remove_key env name none = some (pop Slot name env)

  unfoldable pub environment_remove_keys : Environment → List Bytes → Option Environment
  environment_remove_keys env [] = some env
  environment_remove_keys env (name ∷ l) = elim (remove_key env name (get Slot name env)) [
    | none ↦ none
    | some env' ↦ environment_remove_keys env' l
  ]

  -- environment_put: the variable is looked up by the whole string, and put by the part before `=`;
  -- what is freed is what was found, or what the put replaced.
  unfoldable pub put_replacing :
      Option Slot → Environment → Bytes → Bytes → Option (Bool × Environment)
  put_replacing none env name v = some (false, put Slot name (live v) env)
  put_replacing (some (live o)) env name v = some (true, put Slot name (live v) env)
  put_replacing (some dangling) env name v = none

  unfoldable pub put_over :
      Option Slot → Environment → Bytes → Bytes → Bytes → Bool → Option (Bool × Environment)
  put_over none env name_value name v overwrite = put_replacing (get Slot name env) env name v
  put_over (some e) env name_value name v true = put_replacing (get Slot name env) env name v
  put_over (some (live o)) env name_value name v false =
      some (true, put Slot name_value dangling env)
  put_over (some dangling) env name_value name v false = none

  unfoldable pub environment_put : Environment → Bytes → Bool → Option (Bool × Environment)
  environment_put env name_value overwrite =
      let (name, eq) = span before_equals name_value in
      put_over (get Slot name_value env) env name_value name (drop 1 eq) overwrite

  unfoldable pub environment_get : Environment → Bytes → Value
  environment_get env name = slot_value (get Slot name env)

  -- environment_list; none where freed memory is read.
  unfoldable pub list_of : List (Bytes × Slot) → Option (List Bytes)
  list_of [] = some []
  list_of ((k, dangling) ∷ es) = none
  list_of ((k, live v) ∷ es) = elim (list_of es) [
    | none ↦ none
    | some rest ↦ some ((k ++ (b'=' ∷ v)) ∷ rest)
  ]

  unfoldable pub environment_list : Environment → Option (List Bytes)
  environment_list env = list_of (entries Slot env)

  -- environment_to_byte_array
  unfoldable pub text_of : List (Bytes × Slot) → Option Bytes
  text_of [] = some []
  text_of ((k, dangling) ∷ es) = none
  text_of ((k, live v) ∷ es) = elim (text_of es) [
    | none ↦ none
    | some rest ↦ some (k ++ (b'=' ∷ (v ++ (b'\n' ∷ rest))))
  ]

  unfoldable pub environment_to_byte_array : Environment → Option Bytes
  environment_to_byte_array env = text_of (entries Slot env)
