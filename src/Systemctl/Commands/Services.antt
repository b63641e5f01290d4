-- ===== src/Systemctl/Commands/Services.antt =====
-- The exit status of a command over several services: start-stop.c, reload.c, enable-disable.c and
-- status.c.
use mathlib.Core.Bool.{◌||◌}
use sysvkit.Base.{
  ℕ, Bool, true, false, not, ◌&&◌, Option, none, some, List, [], ◌∷◌, ◌==◌, if◌then◌else◌,
  Bool-cases, ◌≡◌, refl, inl, inr, ◌∙◌, arith,
}
use sysvkit.Systemctl.Commands.{
  Command, Script, Outcome, last_failure, any_success, is_question, command_service, command_main,
}

-- Every service was found, and each satisfies `ok`.
unfoldable pub all_found : (Script → Bool) → List (Option Script) → Bool
all_found ok [] = true
all_found ok (none ∷ svcs) = false
all_found ok (some svc ∷ svcs) = ok svc && all_found ok svcs

unfoldable pub any_found : (Script → Bool) → List (Option Script) → Bool
any_found ok [] = false
any_found ok (none ∷ svcs) = any_found ok svcs
any_found ok (some svc ∷ svcs) = ok svc || any_found ok svcs

unfoldable pub is_empty : List (Option Script) → Bool
is_empty [] = true
is_empty (s ∷ svcs) = false

-- The command's exit status for the service is 0.
unfoldable pub done : Command → Script → Bool
done cmd svc = (command_service cmd svc).code == 0

module _ (act : Script → Outcome) where
  last_failure_lem :
      (ret : ℕ) (svcs : List (Option Script))
      → (last_failure act ret svcs == 0)
        ≡ ((ret == 0) && all_found (λ svc. (act svc).code == 0) svcs)
  unfolding last_failure all_found
  last_failure_lem ret [] = ground arith
  last_failure_lem ret (none ∷ svcs) = ground arith
  last_failure_lem ret (some svc ∷ svcs) = elim (Bool-cases ((act svc).code == 0)) [
    | inl e ↦ rw (e) (last_failure_lem ret svcs)
    | inr e ↦ rw (e) (last_failure_lem ((act svc).code) svcs ∙ rw (e) (ground arith))
  ]

  any_success_lem :
      (ret : ℕ) (svcs : List (Option Script))
      → (any_success act ret svcs == 0) ≡ (
          all_found (λ svc. true) svcs
          && ((ret == 0) || any_found (λ svc. (act svc).code == 0) svcs))
  unfolding any_success all_found any_found
  any_success_lem ret [] = ground arith
  any_success_lem ret (none ∷ svcs) = refl
  any_success_lem ret (some svc ∷ svcs) = elim (Bool-cases ((act svc).code == 0)) [
    | inl e ↦ rw (e) (any_success_lem 0 svcs ∙ ground arith)
    | inr e ↦ rw (e) (any_success_lem ret svcs)
  ]

-- The exit status of a command that is no question is 0 exactly when the options were understood,
-- there is a service, every service was found and the command's own status is 0 for each of them.
-- For `is-enabled` and `is-active` it is 0 exactly when the options were understood, every service
-- was found, and the status is 0 for one of them at least.
pub command_main-done :
    (cmd : Command) (options_ok : Bool) (svcs : List (Option Script))
    → (command_main cmd options_ok svcs == 0) ≡ (
        options_ok
        && (if is_question cmd
            then all_found (λ svc. true) svcs && any_found (done cmd) svcs
            else not (is_empty svcs) && all_found (done cmd) svcs))
unfolding command_main done is_empty any_found all_found
command_main-done cmd false svcs = refl
command_main-done cmd true [] = elim (Bool-cases (is_question cmd)) [
  | inl e ↦ rw (e) refl
  | inr e ↦ rw (e) refl
]
command_main-done cmd true (s ∷ svcs) = elim (Bool-cases (is_question cmd)) [
  | inl e ↦ rw (e) (any_success_lem (command_service cmd) 3 (s ∷ svcs))
  | inr e ↦ rw (e) (last_failure_lem (command_service cmd) 0 (s ∷ svcs))
]
