-- ===== src/Monitor/Watch.antt =====
-- monitor_watch and monitor_wait of src/sysvrun/monitor.c. Each round of a loop takes one event:
-- what poll, the clock, the control socket and the process table report in that round.
pub mod Quiet
pub mod Escalation
pub mod Orders
use mathlib.Core.Bool.{◌||◌}
use sysvkit.Base.{
  ℕ, zero, suc, ◌+◌, ◌-◌, ◌%◌, ◌^◌, Bool, true, false, not, ◌&&◌, Option, none, some, List, [], ◌∷◌,
  ◌++◌, ltb, ◌==◌, if◌then◌else◌,
}
use sysvkit.Service.Types.{ServiceType, forking, oneshot, KillMode, cgroup, mixed, process, Service}
use sysvkit.Monitor.{
  Monitor, MonitorState, running, state_eq, monitor_set_state, monitor_is_stopping,
}
use sysvkit.Monitor.Control.{Connection, Session, monitor_control_socket_ingest}

pub data Signal : Type 0 where
  sigterm sigkill : Signal

-- What a round does to the outside: a kill order to all descendants or to the main process alone,
-- a process dropped from the table, the report of readiness, the removal of the PID file.
pub data Effect : Type 0 where
  kill_order : Bool → Signal → Effect
  drop_process : ℕ → Effect
  report_ready : Effect
  remove_pid_file : Effect

-- The monitor with the loop's locals: ko.sent, ko.all, `stopping` and the last collected `pid`.
pub record Watch : Type 0 where
  pub monitor : Monitor
  pub sent : ℕ
  pub all : Bool
  pub stopping : ℕ
  pub last_pid : ℕ
  pub effects : List Effect

-- A terminated process that process_collect returns.
pub record Exit : Type 0 where
  pub pid : ℕ
  pub wstatus : ℕ

-- One round: whether poll worked, the time, a waiting control client, whether process events came
-- in and could be read (or the connector was reconnected), the main process that the PID file
-- names, the processes collected, and whether none is left.
pub record WatchEvent : Type 0 where
  pub poll_ok : Bool
  pub now : ℕ
  pub control : Option Connection
  pub process_event : Bool
  pub connector_ok : Bool
  pub main_pid : Option ℕ
  pub collected : List Exit
  pub no_descendants : Bool

-- The settings that the loop reads: the service, the command's user, and whether it has a PID file.
pub record Job : Type 0 where
  pub svc : Service
  pub uid : ℕ
  pub has_pidfile : Bool

-- A loop goes on, or ends with its return value (true for 0).
pub data Round (S : Type 0) : Type 0 where
  go_on : S → Round S
  break : Bool → S → Round S

infixl 5 ◌>>=◌
abbrev pub ◌>>=◌ : {S : Type 0} → Round S → (S → Round S) → Round S
go_on s >>= f = f s
break ok s >>= f = break ok s

abbrev pub add_effect : Effect → Watch → Watch
add_effect e w = record w { effects = w.effects ++ e ∷ [] }

unfoldable pub serve_control : Job → Option Connection → Watch → Round Watch
serve_control job none w = go_on w
serve_control job (some conn) w =
    let s = monitor_control_socket_ingest conn job.uid w.monitor in
    let w' = record w { monitor = s.monitor } in if s.ok then go_on w' else break false w'

abbrev pub is_cgroup : KillMode → Bool
is_cgroup cgroup = true
is_cgroup _ = false

abbrev pub is_mixed : KillMode → Bool
is_mixed mixed = true
is_mixed _ = false

abbrev pub is_process : KillMode → Bool
is_process process = true
is_process _ = false

abbrev pub is_none : KillMode → Bool
is_none KillMode.none = true
is_none _ = false

abbrev pub is_forking : ServiceType → Bool
is_forking forking = true
is_forking _ = false

abbrev pub is_oneshot : ServiceType → Bool
is_oneshot oneshot = true
is_oneshot _ = false

-- A pass of a stop order, `stopping` already counted up.
unfoldable pub kill_pass : KillMode → ℕ → ℕ → Watch → Round Watch
kill_pass mode now (suc zero) w =
    let all = w.all || is_cgroup mode in
    go_on (add_effect (kill_order all sigterm) (record w { stopping = 1; all = all; sent = now }))
kill_pass mode now (suc (suc zero)) w =
    let all = w.all || is_mixed mode in
    go_on (add_effect (kill_order all sigkill) (record w { stopping = 2; all = all; sent = now }))
kill_pass mode now n w = break true (record w { stopping = n })

-- "Did we get a stop or restart order?"
unfoldable pub stop_order : Job → ℕ → Watch → Round Watch
unfolding kill_pass
stop_order job now w =
    let mon = w.monitor in
    if monitor_is_stopping mon && ltb job.svc.stop_timeout ((now + 2 ^ 64 - w.sent) % 2 ^ 64)
    then (if mon.pid == 0
        then (if ltb 0 w.sent
            then break true (add_effect (drop_process mon.child) w)
            else go_on (record w { sent = now }))
        else if is_none job.svc.kill_mode
        then break true (add_effect (drop_process mon.pid) w)
        else kill_pass job.svc.kill_mode now (suc w.stopping) w)
    else go_on w

-- monitor_find_main_pid, where no main process is known and the child has terminated.
unfoldable pub monitor_find_main_pid : Job → Option ℕ → Monitor → Monitor
monitor_find_main_pid job none mon = mon
monitor_find_main_pid job (some pid) mon =
    if mon.pid == 0 && mon.child == 0 && job.has_pidfile then record mon { pid = pid } else mon

-- "Direct child, collect it."
unfoldable pub collect_child : Job → Exit → Watch → Watch
collect_child job e w =
    if e.pid == w.monitor.child
    then (let mon = record (w.monitor) { child = 0 } in
        if is_forking job.svc.type
        then add_effect report_ready (record w { monitor = monitor_set_state mon running })
        else record w { monitor = mon })
    else w

-- "Main process exited"
unfoldable pub collect_main : Job → Exit → Watch → Watch
collect_main job e w =
    if e.pid == w.monitor.pid
    then (let w' = record w { monitor = record (w.monitor) { wstatus = some e.wstatus } } in
        if job.has_pidfile then add_effect remove_pid_file w' else w')
    else w

unfoldable pub collect : Job → List Exit → Watch → Watch
collect job [] w = w
collect job (e ∷ es) w =
    collect job es (collect_main job e (collect_child job e (record w { last_pid = e.pid })))

-- The tests behind the collection.
unfoldable pub check_done : Job → Option ℕ → Bool → Watch → Round Watch
check_done job (some status) empty w =
    if is_oneshot job.svc.type
    then break true
        (add_effect report_ready (record w { monitor = monitor_set_state (w.monitor) running }))
    else if not (monitor_is_stopping w.monitor) || is_process job.svc.kill_mode
    then break true w
    else if empty && not (w.last_pid == 0)
    then break true w
    else go_on w
check_done job none empty w = if empty && not (w.last_pid == 0) then break true w else go_on w

unfoldable pub process_events : Job → WatchEvent → Watch → Round Watch
process_events job ev w =
    if not ev.process_event
    then go_on w
    else if not ev.connector_ok
    then break false w
    else (let w' =
          collect job ev.collected
            (record w { monitor = monitor_find_main_pid job ev.main_pid (w.monitor) }) in
        check_done job w'.monitor.wstatus ev.no_descendants w')

unfoldable pub watch_round : Job → WatchEvent → Watch → Round Watch
watch_round job ev w = if not ev.poll_ok then break false w else do
  w₁ ← serve_control job ev.control w
  w₂ ← stop_order job ev.now w₁
  process_events job ev w₂

-- The loop; none where the events end before it does.
unfoldable pub watch_loop : Job → List WatchEvent → Watch → Option (Bool × Watch)
watch_loop job [] w = none
watch_loop job (ev ∷ evs) w = elim (watch_round job ev w) [
  | go_on w' ↦ watch_loop job evs w'
  | break ok w' ↦ some (ok, w')
]

abbrev pub fresh_watch : Monitor → Watch
fresh_watch mon = record {
  monitor = mon;
  sent = 0;
  all = false;
  stopping = 0;
  last_pid = 0;
  effects = [];
}

unfoldable pub monitor_watch : Job → List WatchEvent → Monitor → Option (Bool × Watch)
monitor_watch job evs mon = watch_loop job evs (fresh_watch mon)

-- One round of monitor_wait.
pub record WaitEvent : Type 0 where
  pub at : ℕ
  pub poll_ok : Bool
  pub control : Option Connection
  pub connector_ok : Bool

-- The monitor after a waiting control client was served, if one was.
unfoldable pub wait_control : ℕ → Option Connection → Monitor → Bool × Monitor
wait_control uid none mon = (true, mon)
wait_control uid (some conn) mon =
    let s = monitor_control_socket_ingest conn uid mon in (s.ok, s.monitor)

-- The loop `while (mon->state == state)`; none where the events end before it does.
unfoldable pub monitor_wait :
    ℕ → ℕ → MonitorState → List WaitEvent → Monitor → Option (Bool × Monitor)
monitor_wait uid deadline state [] mon = if state_eq mon.state state then none else some (true, mon)
monitor_wait uid deadline state (ev ∷ evs) mon =
    let served = wait_control uid ev.control mon in
    let later = monitor_wait uid deadline state evs served.1 in
    if not (state_eq mon.state state)
    then some (true, mon)
    else if not (deadline == 0) && not (ltb ev.at deadline)
    then some (true, mon)
    else if not ev.poll_ok
    then some (false, mon)
    else if not served.0
    then some (false, served.1)
    else if not ev.connector_ok
    then some (false, served.1)
    else later
