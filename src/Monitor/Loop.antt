-- ===== src/Monitor/Loop.antt =====
-- The main loop of monitor_func in src/sysvrun/monitor.c. Each pass of the loop takes what the
-- clock, fork_function and the two inner loops meet in it.
pub mod Policy
pub mod Passes
use mathlib.Core.Bool.{◌||◌}
use sysvkit.Base.{
  ℕ, zero, suc, ◌+◌, ◌-◌, ◌%◌, ◌^◌, ◌<◌, Bool, true, false, not, ◌&&◌, Option, none, some, List, [],
  ◌∷◌, ltb, ◌==◌, if◌then◌else◌,
}
use sysvkit.Service.Types.{
  ServiceType, simple, exec, forking, RestartPolicy, no_restart, always, on_success, on_failure,
  on_abnormal, on_abort, Service,
}
use sysvkit.Monitor.{
  Monitor, MonitorState, error, idle, restarting, starting, running, remaining, stopping, stopped,
  failed, dead, rank, state_eq, monitor_set_state, wifexited, wexitstatus, wifsignaled, wtermsig,
}
use sysvkit.Monitor.Limit.{Limiter, limit_init, limit_restart}
use sysvkit.Monitor.Watch.{Job, WatchEvent, WaitEvent, monitor_watch, monitor_wait, is_forking}

-- What one pass meets: the clock's reading, the rounds of monitor_wait, the child that was forked
-- (none where the fork failed), and the rounds of monitor_watch.
pub record Pass : Type 0 where
  pub clock : ℕ
  pub waits : List WaitEvent
  pub child : Option ℕ
  pub watches : List WatchEvent

-- The monitor and its ring of start times.
pub record Loop : Type 0 where
  pub monitor : Monitor
  pub limiter : Option Limiter

-- SIGHUP, SIGINT, SIGTERM and SIGPIPE are clean.
abbrev pub clean_signal : ℕ → Bool
clean_signal sig = sig == 1 || sig == 2 || sig == 15 || sig == 13

unfoldable pub ucexit : Option ℕ → Bool
ucexit none = false
ucexit (some w) = wifexited w && not (wexitstatus w == 0)

unfoldable pub ucsig : Option ℕ → Bool
ucsig none = false
ucsig (some w) = not (wifexited w) && wifsignaled w && not (clean_signal (wtermsig w))

-- The test of the restart policy.
unfoldable pub restart_indicated : RestartPolicy → Bool → Bool → Bool
restart_indicated no_restart ucexit ucsig = false
restart_indicated always ucexit ucsig = true
restart_indicated on_success ucexit ucsig = not ucexit && not ucsig
restart_indicated on_failure ucexit ucsig = ucexit || ucsig
restart_indicated on_abnormal ucexit ucsig = ucsig
restart_indicated on_abort ucexit ucsig = ucsig

-- From monitor_watch's return to the end of the pass.
unfoldable pub after_watch : Service → Monitor → Monitor
after_watch svc mon =
    let exit = ucexit mon.wstatus in
    let sig = ucsig mon.wstatus in
    if not (state_eq mon.state running)
    then mon
    else if svc.remain_after_exit && not exit && not sig
    then monitor_set_state mon remaining
    else if restart_indicated svc.restart_policy exit sig
    then monitor_set_state mon restarting
    else if exit || sig
    then monitor_set_state mon failed
    else monitor_set_state mon stopped

-- `case MS_RUNNING`; none where the watch does not end.
unfoldable pub case_running : Job → Pass → Loop → Option Loop
case_running job pass l = elim (monitor_watch job pass.watches l.monitor) [
  | none ↦ none
  | some (false, w) ↦ some (record l { monitor = monitor_set_state w.monitor dead })
  | some (true, w) ↦ some (record l { monitor = after_watch job.svc w.monitor })
]

abbrev pub ready_at_start : ServiceType → Bool
ready_at_start simple = true
ready_at_start exec = true
ready_at_start _ = false

-- The monitor once the child runs.
unfoldable pub started : Service → ℕ → Monitor → Monitor
started svc child mon = record {
  state = if ready_at_start svc.type then running else mon.state;
  noisy = mon.noisy;
  child = child;
  pid = if is_forking svc.type then mon.pid else child;
  wstatus = none;
}

-- `case MS_STARTING`, which falls through.
unfoldable pub case_starting : Job → Pass → Loop → Option Loop
case_starting job pass l = elim pass.child [
  | none ↦ some (record l {
    monitor = monitor_set_state (record (l.monitor) { wstatus = none; child = 0 }) dead;
  })
  | some child ↦ case_running job pass (record l { monitor = started job.svc child l.monitor })
]

-- The new ring, or none where the start limit is exceeded.
unfoldable pub limit_check : Option Limiter → ℕ → Option (Option Limiter)
limit_check none next = some none
limit_check (some l) next = elim (limit_restart l next) [ none ↦ none | some l' ↦ some (some l') ]

-- Behind the wait for the restart.
unfoldable pub after_wait : Job → Pass → Loop → Bool → Option Loop
after_wait job pass l ok =
    let l' = if ok then l else record l { monitor = monitor_set_state l.monitor dead } in
    if state_eq l'.monitor.state restarting then case_starting job pass l' else some l'

-- `case MS_RESTARTING`, which falls through.
unfoldable pub case_restarting : Job → Pass → Loop → Option Loop
case_restarting job pass l =
    let next_start_time = (pass.clock + job.svc.delay) % 2 ^ 64 in
    elim (limit_check l.limiter next_start_time) [
      | none ↦ some (record l { monitor = monitor_set_state l.monitor failed })
      | some limiter ↦ elim (monitor_wait job.uid next_start_time restarting pass.waits l.monitor) [
        | none ↦ none
        | some (ok, mon) ↦ after_wait job pass (record { monitor = mon; limiter = limiter }) ok
      ]
    ]

-- `case MS_REMAINING`
unfoldable pub case_remaining : Job → Pass → Loop → Option Loop
case_remaining job pass l = elim (monitor_wait job.uid 0 remaining pass.waits l.monitor) [
  | none ↦ none
  | some (true, mon) ↦ some (record l { monitor = mon })
  | some (false, mon) ↦ some (record l { monitor = monitor_set_state mon dead })
]

-- The switch on the state.
unfoldable pub dispatch : MonitorState → Job → Pass → Loop → Option Loop
dispatch restarting job pass l = case_restarting job pass l
dispatch starting job pass l = case_starting job pass l
dispatch running job pass l = case_running job pass l
dispatch stopping job pass l = some (record l { monitor = monitor_set_state l.monitor stopped })
dispatch remaining job pass l = case_remaining job pass l
dispatch _ job pass l = some (record l { monitor = monitor_set_state l.monitor dead })

-- The loop `while (mon.state < MS_STOPPED)`; none where the passes end before it does.
unfoldable pub monitor_loop : Job → List Pass → Loop → Option Loop
monitor_loop job [] l = if ltb (rank l.monitor.state) (rank stopped) then none else some l
monitor_loop job (pass ∷ passes) l = elim (ltb (rank l.monitor.state) (rank stopped)) [
  | false ↦ some l
  | true ↦ elim (dispatch l.monitor.state job pass l) [
    | none ↦ none
    | some l' ↦ monitor_loop job passes l'
  ]
]

-- The set-up, from the time of the first start.
unfoldable pub monitor_func : Job → ℕ → Monitor → List Pass → Option Loop
monitor_func job now mon passes = monitor_loop job passes (record {
  monitor = monitor_set_state mon starting;
  limiter = limit_init job.svc.start_limit_interval job.svc.start_limit_burst now;
})
