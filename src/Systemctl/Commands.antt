-- ===== src/Systemctl/Commands.antt =====
-- The commands of src/systemctl over init scripts: start-stop.c, reload.c, status.c, show.c and
-- enable-disable.c, with service_invoke of service.c as the script's answers. Commands/Services states
-- what the exit status over several services means, Commands/Tables what a command does to one service.
pub mod Services
pub mod Tables
use mathlib.Core.Bool.{◌||◌}
use sysvkit.Base.{
  ℕ, zero, suc, Bool, true, false, not, ◌&&◌, Option, none, some, List, [], ◌∷◌, ◌++◌, ◌%◌, ◌/◌,
  ltb, ◌==◌, if◌then◌else◌,
}
use sysvkit.Systemctl.Links.{Total, error, count}

-- The command line's commands that act on a service, but for `show`, which has its own loop.
pub data Command : Type 0 where
  start stop restart try_restart : Command
  reload reload_or_restart reload_or_try_restart try_reload_or_restart : Command
  status is_enabled is_active enable disable : Command

-- The init script's verbs.
pub data Verb : Type 0 where
  start_verb stop_verb restart_verb reload_verb status_verb show_verb : Verb

-- The return value of service_invoke: minus a number, or the script's exit status.
pub data Invoked : Type 0 where
  negative : ℕ → Invoked
  exited : ℕ → Invoked

-- What service_invoke's system calls report: the pipe, the fork, the wait, whether the child sent an
-- errno over the pipe, and the wait status.
pub record Child : Type 0 where
  pub pipe_ok : Bool
  pub fork_ok : Bool
  pub wait_ok : Bool
  pub exec_errno : Option ℕ
  pub wait_status : ℕ

unfoldable pub service_invoke : Child → Invoked
service_invoke c =
    if not c.pipe_ok || not c.fork_ok || not c.wait_ok then negative 1 else elim c.exec_errno [
      | some n ↦ negative 1
      | none ↦
          if not (c.wait_status % 128 == 0) && not (c.wait_status % 128 == 127)
          then negative (c.wait_status % 128)
          else exited (c.wait_status / 256 % 256)
    ]

-- A service that service_find found: what its script answers to each verb, and whether it is
-- enabled; enabling and disabling fail or not.
pub record Script : Type 0 where
  pub answer : Verb → Invoked
  pub enabled : Total
  pub enabling : Total
  pub disabling : Total

-- A command's exit status for one service, and the verbs it invoked, in order.
pub record Outcome : Type 0 where
  pub code : ℕ
  pub invoked : List Verb

abbrev exit_failure : ℕ
exit_failure = 1

abbrev outcome : ℕ → List Verb → Outcome
outcome c vs = record { code = c; invoked = vs }

-- The last call of start_stop, behind the verbs invoked before.
unfoldable pub run_verb : Script → List Verb → Verb → Outcome
run_verb svc before v = elim (svc.answer v) [
  | negative n ↦ outcome exit_failure (before ++ v ∷ [])
  | exited n ↦ outcome n (before ++ v ∷ [])
]

-- start_stop: `start`, `stop` and `try-restart` ask for the status first.
unfoldable pub if_running : Script → Bool → Verb → Outcome
if_running svc wanted v = elim (svc.answer status_verb) [
  | negative n ↦ outcome exit_failure (status_verb ∷ [])
  | exited n ↦
      let act = run_verb svc (status_verb ∷ []) v in
      let idle = outcome 0 (status_verb ∷ []) in
      if n == 0 then (if wanted then act else idle) else if wanted then idle else act
]

unfoldable pub start_stop : Command → Script → Outcome
start_stop start svc = if_running svc false start_verb
start_stop stop svc = if_running svc true stop_verb
start_stop try_restart svc = if_running svc true restart_verb
start_stop _ svc = run_verb svc [] restart_verb

-- reload.c, from the `reload` verb on.
unfoldable pub reload_or : Bool → Script → List Verb → Outcome
reload_or fall_back svc before = elim (svc.answer reload_verb) [
  | negative n ↦ outcome exit_failure (before ++ reload_verb ∷ [])
  | exited n ↦
      let restarted = run_verb svc (before ++ reload_verb ∷ []) restart_verb in
      if n == 0
      then outcome 0 (before ++ reload_verb ∷ [])
      else if fall_back
      then restarted
      else outcome n (before ++ reload_verb ∷ [])
]

unfoldable pub try_reload : Script → Outcome
try_reload svc = elim (svc.answer status_verb) [
  | negative n ↦ outcome exit_failure (status_verb ∷ [])
  | exited n ↦
      let act = reload_or true svc (status_verb ∷ []) in
      if ltb 0 n then outcome 0 (status_verb ∷ []) else act
]

unfoldable pub reload_service : Command → Script → Outcome
reload_service reload svc = reload_or false svc []
reload_service reload_or_restart svc = reload_or true svc []
reload_service _ svc = try_reload svc

-- The two questions of status.c: none where the answer is an error.
unfoldable pub ask_enabled : Script → Option Bool
ask_enabled svc = elim svc.enabled [ error n ↦ none | count k ↦ some (ltb 0 k) ]

unfoldable pub ask_running : Script → Option Bool
ask_running svc = elim (svc.answer status_verb) [ negative n ↦ none | exited n ↦ some (n == 0) ]

unfoldable pub show_status : Bool → Option Bool → Outcome
show_status on none = outcome exit_failure (status_verb ∷ [])
show_status on (some running) =
    outcome (if running then 0 else if on then 3 else 4) (status_verb ∷ [])

unfoldable pub status_service : Command → Script → Outcome
status_service status svc = elim (ask_enabled svc) [
  | none ↦ outcome exit_failure []
  | some on ↦ show_status on (ask_running svc)
]
status_service is_enabled svc = elim (ask_enabled svc) [
  | none ↦ outcome exit_failure []
  | some on ↦ outcome (if on then 0 else 1) []
]
status_service is_active svc = elim (ask_running svc) [
  | none ↦ outcome exit_failure (status_verb ∷ [])
  | some running ↦ outcome (if running then 0 else 3) (status_verb ∷ [])
]
status_service _ svc = outcome exit_failure []

unfoldable pub enable_disable : Command → Script → Outcome
enable_disable enable svc = elim svc.enabling [
  | error n ↦ outcome exit_failure []
  | count k ↦ outcome 0 []
]
enable_disable disable svc = elim svc.disabling [
  | error n ↦ outcome exit_failure []
  | count k ↦ outcome 0 []
]
enable_disable _ svc = outcome exit_failure []

-- The loops of start_stop_main, reload_main, enable_disable_main and of `status`: a service that is
-- not found (none) ends the loop; the last failure is the result.
unfoldable pub last_failure : (Script → Outcome) → ℕ → List (Option Script) → ℕ
last_failure act ret [] = ret
last_failure act ret (none ∷ svcs) = exit_failure
last_failure act ret (some svc ∷ svcs) =
    last_failure act (if (act svc).code == 0 then ret else (act svc).code) svcs

-- The loop of `is-enabled` and `is-active`: any success is the result.
unfoldable pub any_success : (Script → Outcome) → ℕ → List (Option Script) → ℕ
any_success act ret [] = ret
any_success act ret (none ∷ svcs) = exit_failure
any_success act ret (some svc ∷ svcs) =
    any_success act (if (act svc).code == 0 then 0 else ret) svcs

-- What each command does for one service.
unfoldable pub command_service : Command → Script → Outcome
command_service start svc = start_stop start svc
command_service stop svc = start_stop stop svc
command_service restart svc = start_stop restart svc
command_service try_restart svc = start_stop try_restart svc
command_service reload svc = reload_service reload svc
command_service reload_or_restart svc = reload_service reload_or_restart svc
command_service reload_or_try_restart svc = reload_service reload_or_try_restart svc
command_service try_reload_or_restart svc = reload_service try_reload_or_restart svc
command_service status svc = status_service status svc
command_service is_enabled svc = status_service is_enabled svc
command_service is_active svc = status_service is_active svc
command_service enable svc = enable_disable enable svc
command_service disable svc = enable_disable disable svc

-- The commands that ask a question: status_main starts from a failure for them.
unfoldable pub is_question : Command → Bool
is_question is_enabled = true
is_question is_active = true
is_question _ = false

-- start_stop_main, reload_main, status_main and enable_disable_main. `options_ok` is getopt_none's
-- answer; with no service it is a usage error.
unfoldable pub command_main : Command → Bool → List (Option Script) → ℕ
command_main cmd false svcs = exit_failure
command_main cmd true [] = exit_failure
command_main cmd true (s ∷ svcs) =
    if is_question cmd
    then any_success (command_service cmd) 3 (s ∷ svcs)
    else last_failure (command_service cmd) 0 (s ∷ svcs)

-- show_main: service_invoke's value is the result as it is, also where it is negative.
abbrev pub show_result : Invoked → Invoked → Invoked
show_result ret (negative n) = negative n
show_result ret (exited n) = if n == 0 then ret else exited n

unfoldable pub show_services : Invoked → List (Option Script) → Invoked
show_services ret [] = ret
show_services ret (none ∷ svcs) = exited exit_failure
show_services ret (some svc ∷ svcs) = show_services (show_result ret (svc.answer show_verb)) svcs

unfoldable pub show_main : Bool → List (Option Script) → Invoked
show_main false svcs = exited exit_failure
show_main true [] = exited exit_failure
show_main true (s ∷ svcs) = show_services (exited 0) (s ∷ svcs)

-- noop_main (`daemon-reload`).
unfoldable pub noop_main : Bool → ℕ
noop_main options_ok = if options_ok then 0 else exit_failure
