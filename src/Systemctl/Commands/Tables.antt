-- ===== src/Systemctl/Commands/Tables.antt =====
-- What the commands do to a service whose script keeps to the convention for init scripts.
use sysvkit.Base.{ℕ, suc, Bool, true, false, List, [], ◌∷◌, ◌≡◌, refl, arith, if◌then◌else◌}
use sysvkit.Systemctl.Links.{count}
use sysvkit.Systemctl.Commands.{
  Command, start, stop, restart, try_restart, reload, reload_or_restart, reload_or_try_restart,
  try_reload_or_restart, status, is_enabled, is_active, enable, disable, Verb, start_verb,
  stop_verb, restart_verb, reload_verb, status_verb, show_verb, exited, Script, command_service,
  start_stop, if_running, run_verb, reload_service, reload_or, try_reload, status_service,
  ask_enabled, ask_running, show_status, enable_disable,
}

-- A script that keeps to the convention: each verb succeeds, but for `status` and `reload` of a
-- service that is not running, which exit with the nonzero statuses `suc m` and `suc n`.
unfoldable pub conforming : Bool → ℕ → ℕ → ℕ → Script
conforming running m n levels = record {
  answer = λ v. elim v [
    | status_verb ↦ exited (if running then 0 else suc m)
    | reload_verb ↦ exited (if running then 0 else suc n)
    | start_verb ↦ exited 0
    | stop_verb ↦ exited 0
    | restart_verb ↦ exited 0
    | show_verb ↦ exited 0
  ];
  enabled = count levels;
  enabling = count 0;
  disabling = count levels;
}

-- Opens the commands for the tables below.
opened : Unit {0}
unfolding command_service start_stop if_running run_verb reload_service reload_or try_reload
    status_service ask_enabled ask_running show_status enable_disable
opened = tt

-- Whether the service runs after a verb.
unfoldable pub after_verb : Bool → Verb → Bool
after_verb running start_verb = true
after_verb running stop_verb = false
after_verb running restart_verb = true
after_verb running reload_verb = running
after_verb running status_verb = running
after_verb running show_verb = running

unfoldable pub after_verbs : Bool → List Verb → Bool
after_verbs running [] = running
after_verbs running (v ∷ vs) = after_verbs (after_verb running v) vs

-- Whether the service runs after a command, as the command's name says.
unfoldable pub intended : Command → Bool → Bool
intended start running = true
intended stop running = false
intended restart running = true
intended reload_or_restart running = true
intended _ running = running

-- With a script that keeps to the convention, every command leaves the service as its name says.
pub command_service-intended :
    (cmd : Command) (running : Bool) (m n levels : ℕ)
    → after_verbs running (command_service cmd (conforming running m n levels)).invoked
      ≡ intended cmd running
unfolding opened conforming after_verb after_verbs intended
command_service-intended start true m n levels = refl
command_service-intended start false m n levels = ground arith
command_service-intended stop true m n levels = refl
command_service-intended stop false m n levels = ground arith
command_service-intended restart true m n levels = refl
command_service-intended restart false m n levels = ground arith
command_service-intended try_restart true m n levels = refl
command_service-intended try_restart false m n levels = ground arith
command_service-intended reload true m n levels = refl
command_service-intended reload false m n levels = ground arith
command_service-intended reload_or_restart true m n levels = refl
command_service-intended reload_or_restart false m n levels = ground arith
command_service-intended reload_or_try_restart true m n levels = refl
command_service-intended reload_or_try_restart false m n levels = ground arith
command_service-intended try_reload_or_restart true m n levels = refl
command_service-intended try_reload_or_restart false m n levels = ground arith
command_service-intended status running m n levels = ground arith
command_service-intended is_enabled running m n levels = ground arith
command_service-intended is_active running m n levels = ground arith
command_service-intended enable running m n levels = ground arith
command_service-intended disable running m n levels = ground arith

-- With a script that keeps to the convention, `start` and `stop` neither start a service that runs
-- nor stop one that does not.
pub start_stop-idle :
    (running : Bool) (m n levels : ℕ)
    → (command_service (if running then start else stop) (conforming running m n levels)).invoked
      ≡ (status_verb ∷ [])
unfolding opened conforming
start_stop-idle true m n levels = refl
start_stop-idle false m n levels = ground arith
