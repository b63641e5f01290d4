-- ===== src/Environment/Tests.antt =====
-- Instances of the theorems on environments, over association lists.
use sysvkit.Base.{◌≡◌, refl, true, some, Bytes, codes, bytes_eq, Bool-cases, inl, inr}
use sysvkit.Table.{lookup}
use sysvkit.Table.Assoc.{assoc}
use sysvkit.UnitFile.{Slot, live, value, missing}
use sysvkit.Environment.{Environment, environment_merge, environment_clone, environment_get}
use sysvkit.Environment.Values.{over, IsLiveEnvironment, environment_get-environment_merge}

abbrev one_variable : Environment assoc
one_variable = assoc.put Slot (codes "A") (live (codes "1")) (assoc.make Slot)

one_variable-live : IsLiveEnvironment assoc one_variable
unfolding environment_get
one_variable-live k = elim (Bool-cases (bytes_eq (codes "A") k)) [
  | inl e ↦ rw (assoc.get-put Slot k (codes "A") (live (codes "1")) (assoc.make Slot), e) (λ x. cc)
  | inr e ↦
      rw
        (
          assoc.get-put Slot k (codes "A") (live (codes "1")) (assoc.make Slot),
          e,
          assoc.get-make Slot k,
        )
        (λ x. cc)
]

environment_get-environment_merge_example :
    ((env' : Environment assoc) × (environment_merge assoc one_variable one_variable true
        ≡ some env')
      × ((k : Bytes)
          → environment_get assoc env' k
            ≡ over (assoc.get Slot k one_variable) (environment_get assoc one_variable k)))
    × ((clone : Environment assoc) × (environment_clone assoc one_variable ≡ some clone)
        × ((k : Bytes) → environment_get assoc clone k ≡ environment_get assoc one_variable k))
environment_get-environment_merge_example =
    environment_get-environment_merge assoc one_variable one_variable one_variable-live
      one_variable-live

one_value : environment_get assoc one_variable (codes "A") ≡ value (codes "1")
unfolding environment_get assoc lookup bytes_eq
one_value = refl

unknown_value : environment_get assoc one_variable (codes "A=2") ≡ missing
unfolding environment_get assoc lookup bytes_eq
unknown_value = refl
