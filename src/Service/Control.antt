-- ===== src/Service/Control.antt =====
-- src/sysvrun/service.c: starting, stopping, reloading, restarting and asking for the status of a
-- service. What these call in monitor.c, command.c and the system is an interface over a world that
-- the calls change; errno is part of it.
pub mod Ending
pub mod Order
use mathlib.Core.Bool.{◌||◌}
use sysvkit.Base.{
  ℕ, zero, suc, ◌*◌, esrch, Bool, true, false, not, ◌&&◌, Option, none, some, List, [], ◌∷◌, Bytes,
  codes, ◌==◌, ltb, if◌then◌else◌, enoent, etimedout,
}
use sysvkit.Monitor.{
  MonitorState, error, starting, restarting, running, remaining, stopping, stopped, state_eq,
}
use sysvkit.UnitFile.{Value, missing}
use sysvkit.Timespan.{ts_sec}
use sysvkit.Service.Types.{Service, KillMode, cgroup, mixed, process}
use sysvkit.Service.Types

-- MS_ERROR is `error`. `kill` and `killpg` give whether they returned 0, `run` what the command did,
-- which is negative where it is none; `daemon` is command_monitor, with -pid where pid is negative.
pub record Host : Type 1 where
  pub World : Type 0
  pub Command : Type 0
  pub errno : World → ℕ
  pub monitor_control_get_state : Service → World → MonitorState × World
  pub monitor_control_wait : Service → ℕ → List MonitorState → World → MonitorState × World
  pub monitor_control_stop : Service → ℕ → World → MonitorState × World
  pub monitor_control_identify : Service → World → Option (ℕ × ℕ) × World
  pub command_from_service : Service → Bytes → World → Option Command × World
  pub command_run : Command → World → Option ℕ × World
  pub command_kill : Command → ℕ → World → Bool × World
  pub command_killpg : Command → ℕ → World → Bool × World
  pub command_rmpid : Command → World → World
  pub command_monitor : Command → World → Option ℕ × World
  pub getpgid : ℕ → World → Option ℕ × World
  pub kill_group : ℕ → ℕ → World → World
  pub kill_process : ℕ → ℕ → World → World
  pub service_find : Bytes → World → Option Service × World
  pub unit_get_value : Service → Bytes → Bytes → Value

abbrev pub sigterm : ℕ
sigterm = 15

abbrev pub sigcont : ℕ
sigcont = 18

-- 0 if the command returned 0.
abbrev pub exit_of_run : Option ℕ → ℕ
exit_of_run none = 1
exit_of_run (some zero) = 0
exit_of_run (some (suc n)) = 1

-- An exit status, or no fuel.
pub data Outcome : Type 0 where
  exits : ℕ → Outcome
  endless : Outcome

abbrev pub is_up : MonitorState → Bool
is_up s = state_eq s running || state_eq s remaining

abbrev pub has_value : Value → Bool
has_value missing = false
has_value _ = true

module _ (host : Host) where
  open host use {
    World, Command, errno, monitor_control_get_state, monitor_control_wait, monitor_control_stop,
    monitor_control_identify, command_from_service, command_run, command_kill, command_killpg,
    command_rmpid, command_monitor, getpgid, kill_group, kill_process, service_find,
  }

  -- Whether service_start goes on to the command, and its exit status otherwise.
  unfoldable pub wait_for_stop : Service → MonitorState → World → Option ℕ × World
  wait_for_stop svc state w =
      if is_up state
      then (some 0, w)
      else if state_eq state error || state_eq state stopped
      then (none, w)
      else (let (state', w') = monitor_control_wait svc 10000 (stopped ∷ []) w in
          (if state_eq state' error then some 1 else none, w'))

  unfoldable pub ready_to_start : Service → World → Option ℕ × World
  ready_to_start svc w =
      let (state, w1) = monitor_control_get_state svc w in
      if state_eq state starting || state_eq state restarting
      then (let (state', w2) =
            monitor_control_wait svc 60000 (running ∷ remaining ∷ stopped ∷ []) w1 in
          if state_eq state' error then (some 1, w2) else wait_for_stop svc state' w2)
      else wait_for_stop svc state w1

  -- service_start_prerequisites, with the call of service_start; the result is whether it returns 0,
  -- or none for no fuel.
  unfoldable pub service_start_prerequisites :
      (Service → World → Outcome × World) → List Bytes → World → Option Bool × World
  service_start_prerequisites start [] w = (some true, w)
  service_start_prerequisites start (name ∷ req) w =
      let (found, w1) = service_find name w in
      elim found [
        | none ↦ (some false, w1)
        | some svc ↦
            let (outcome, w2) = start svc w1 in
            elim outcome [
              | endless ↦ (none, w2)
              | exits status ↦
                  let (rest, w3) = service_start_prerequisites start req w2 in
                  (elim rest [ none ↦ none | some ok ↦ some (ok && status == 0) ], w3)
            ]
      ]

  -- Behind the prerequisites: the monitor is forked, and a negative pid is an exit status.
  unfoldable pub launch : Command → World → Outcome × World
  launch cmd w =
      let (pid, w') = command_monitor cmd w in
      (elim pid [ none ↦ exits 0 | some status ↦ exits status ], w')

  unfoldable pub start_command :
      (Service → World → Outcome × World) → Service → World → Outcome × World
  start_command start svc w =
      let (cmd, w1) = command_from_service svc (codes "ExecStart") w in
      elim cmd [
        | none ↦ (exits 1, w1)
        | some c ↦
            let (ready, w2) = service_start_prerequisites start svc.required w1 in
            elim ready [
              | none ↦ (endless, w2)
              | some false ↦ (exits 1, w2)
              | some true ↦ launch c w2
            ]
      ]

  -- The fuel bounds the depth of the services that are started for others.
  unfoldable pub service_start : ℕ → Service → World → Outcome × World
  service_start zero svc w = (endless, w)
  service_start (suc depth) svc w =
      let (early, w') = ready_to_start svc w in
      elim early [
        | some status ↦ (exits status, w')
        | none ↦ start_command (service_start depth) svc w'
      ]

  -- The stop command of service_stop, if there is one: the exit status if it ends there.
  unfoldable pub stop_by_command : Service → World → Option ℕ × World
  stop_by_command svc w =
      let (cmd, w1) = command_from_service svc (codes "ExecStop") w in
      elim cmd [
        | none ↦ (if errno w1 == enoent then none else some 1, w1)
        | some c ↦
            let (res, w2) = command_run c w1 in
            let (state, w3) = monitor_control_wait svc 10000 (stopped ∷ []) w2 in
            (
              if state_eq state stopped
                  then some 0
                  else if errno w3 == etimedout
                  then none
                  else some 1,
              w3,
            )
      ]

  unfoldable pub kill_pgid : ℕ → World → World
  kill_pgid pid w =
      let (pgid, w') = getpgid pid w in
      elim pgid [ none ↦ w' | some g ↦ kill_group g sigcont (kill_group g sigterm w') ]

  -- A monitor of a version that kills too much is killed itself.
  unfoldable pub kill_monitor : KillMode → ℕ → World → World
  kill_monitor mode pid w = elim mode [
    | cgroup ↦ kill_pgid pid w
    | mixed ↦ kill_pgid pid w
    | process ↦ kill_process pid sigcont (kill_process pid sigterm w)
    | Types.none ↦ kill_process pid sigcont (kill_process pid sigterm w)
  ]

  -- A stop order to the monitor.
  unfoldable pub stop_by_monitor : Service → World → MonitorState × World
  stop_by_monitor svc w =
      let (identity, w1) = monitor_control_identify svc w in
      let order = monitor_control_stop svc (10 * ts_sec) w1 in
      elim identity [
        | none ↦ order
        | some pair ↦
            if ltb pair.1 20220303 then (stopped, kill_monitor svc.kill_mode pair.0 w1) else order
      ]

  -- The process that the PID file names.
  unfoldable pub kill_by_mode : KillMode → Command → World → Bool × World
  kill_by_mode cgroup cmd w = command_killpg cmd sigterm w
  kill_by_mode mixed cmd w = command_killpg cmd sigterm w
  kill_by_mode process cmd w = command_kill cmd sigterm w
  kill_by_mode Types.none cmd w = (true, w)

  unfoldable pub pid_command : Service → World → Option Command × World
  pid_command svc w =
      let (cmd, w1) = command_from_service svc (codes "ExecStop") w in
      elim cmd [
        | some c ↦ (some c, (command_run c w1).1)
        | none ↦ command_from_service svc (codes "ExecStart") w1
      ]

  unfoldable pub stop_by_pid_file : Service → MonitorState → World → MonitorState × World
  stop_by_pid_file svc state w =
      let (cmd, w1) = pid_command svc w in
      elim cmd [
        | none ↦ (error, w1)
        | some c ↦
            let (killed, w2) = kill_by_mode svc.kill_mode c w1 in
            (
              if killed || errno w2 == enoent || errno w2 == esrch then stopped else state,
              command_rmpid c w2,
            )
      ]

  unfoldable pub stop_running : Service → World → ℕ × World
  stop_running svc w =
      let (state, w1) = stop_by_monitor svc w in
      let (state', w2) =
        (if has_value (host.unit_get_value svc (codes "Service") (codes "PIDFile"))
          then stop_by_pid_file svc state w1
          else (state, w1)) in
      (if state_eq state' stopped then 0 else 1, w2)

  unfoldable pub service_stop : Service → World → ℕ × World
  service_stop svc w =
      let (state, w1) = monitor_control_get_state svc w in
      let (early, w2) = stop_by_command svc w1 in
      if state_eq state stopped
      then (0, w1)
      else elim early [ some status ↦ (status, w2) | none ↦ stop_running svc w2 ]

  unfoldable pub service_reload : Service → World → ℕ × World
  service_reload svc w =
      let (cmd, w1) = command_from_service svc (codes "ExecReload") w in
      elim cmd [
        | none ↦ (3, w1)
        | some c ↦
            let (state, w2) = monitor_control_get_state svc w1 in
            let (res, w3) = command_run c w2 in
            if state_eq state error
            then (1, w2)
            else if state_eq state starting || state_eq state restarting
            then (0, w2)
            else if not (is_up state)
            then (7, w2)
            else (exit_of_run res, w3)
      ]

  unfoldable pub service_restart : ℕ → Service → World → Outcome × World
  service_restart depth svc w =
      let (res, w1) = service_stop svc w in
      if not (res == 0) && not (errno w1 == enoent) && not (errno w1 == esrch)
      then (exits res, w1)
      else service_start depth svc w1

  unfoldable pub service_status : Service → World → ℕ × World
  service_status svc w =
      let (state, w1) = monitor_control_get_state svc w in
      let (cmd, w2) = command_from_service svc (codes "ExecStart") w1 in
      if state_eq state error
      then (4, w1)
      else if is_up state
          || state_eq state starting
          || state_eq state restarting
          || state_eq state stopping
      then (0, w1)
      else elim cmd [
        | none ↦ (4, w2)
        | some c ↦
            let (alive, w3) = command_kill c 0 w2 in
            (
              if alive
                  then 0
                  else if errno w3 == esrch
                  then 1
                  else if errno w3 == enoent
                  then 3
                  else 4,
              w3,
            )
      ]
