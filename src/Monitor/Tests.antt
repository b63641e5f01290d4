-- ===== src/Monitor/Tests.antt =====
-- Instances of the theorems on the monitor, on its client and on its start limit.
use sysvkit.Base.{
  ◌-◌, ◌≡◌, ◌≢◌, ◌↔◌, inl, inr, refl, arith, true, false, none, some, List, [], ◌∷◌, ◌++◌, codes,
  replicate, take, ◌^◌, bytes_eq,
}
use sysvkit.Service.Types.{Service, forking, notify, KillMode, on_failure}
use sysvkit.Monitor.{
  Monitor, restarting, starting, running, remaining, stopping, stopped, failed, normal,
  monitor_is_stopping,
}
use sysvkit.Monitor.Names.{find_state, monitor_state_name, monitor_state_from_name}
use sysvkit.Monitor.Control.{
  Connection, received, closed, session, monitor_control_socket_ingest, keep_before, strip_space,
}
use sysvkit.Monitor.Control.Safety.{
  Ordered, monitor_control_socket_ingest_unprivileged, session-Ordered,
}
use sysvkit.Monitor.Control.Framing.{NoNul}
use sysvkit.Monitor.Limit.{Limiter, limit_init, limit_run, capped}
use sysvkit.Monitor.Limit.Window.{Lag, limit_init-Lag, is_some}
use sysvkit.Monitor.Watch.{
  Job, Watch, WatchEvent, fresh_watch, monitor_watch, process_events, watch_loop, watch_round,
  serve_control, stop_order, kill_pass, kill_order, sigterm, drop_process, monitor_find_main_pid,
  collect, collect_child, collect_main, check_done,
}
use sysvkit.Monitor.Watch.Quiet.{orders, kill_plan}
use sysvkit.Monitor.Watch.Escalation.{monitor_watch-orders}
use sysvkit.Monitor.Watch.Orders.{RoundState, is_collected, process_events_forking_child}
use sysvkit.Monitor.Loop.{Pass, Loop, after_watch, dispatch, started}
use sysvkit.Monitor.Loop.Policy.{clean, ending, Restarts, after_watch_table}
use sysvkit.Monitor.Loop.Passes.{case_starting_never_ready}
use sysvkit.Monitor.Client.{
  Reply, response, waiting, got, monitor_control_wait, monitor_control_get_state,
}
use sysvkit.Monitor.Client.Waiting.{monitor_control_wait_ends}

abbrev idle_monitor : Monitor
idle_monitor = record { state = running; noisy = normal; child = 7; pid = 7; wstatus = none }

-- A client of user 1000 that asks to stop.
abbrev stop_client : Connection
stop_client = record {
  accepted = true;
  peer_uid = some 1000;
  banner_sent = true;
  opened_at = 0;
  junk = replicate 64 0;
  events = received (codes "stop\n") true 10 ∷ closed ∷ [];
}

monitor_control_socket_ingest_unprivileged_example :
    (monitor_control_socket_ingest stop_client 33 idle_monitor).monitor ≡ idle_monitor
monitor_control_socket_ingest_unprivileged_example =
    monitor_control_socket_ingest_unprivileged stop_client 33 1000 idle_monitor refl
      (λ e. omega arith) (λ e. omega arith)

session-Ordered_example :
    Ordered idle_monitor
      (session true 100000 0 (replicate 64 0) idle_monitor stop_client.events).monitor
session-Ordered_example =
    session-Ordered true 100000 0 (replicate 64 0) idle_monitor stop_client.events

-- "stop" has no white space to strip and no NUL.
stop_whole : strip_space (codes "stop") ≡ codes "stop"
unfolding strip_space keep_before
stop_whole = refl

stop_NoNul : NoNul (codes "stop")
stop_NoNul =
    ((λ e. omega arith), ((λ e. omega arith), ((λ e. omega arith), ((λ e. omega arith), tt))))

-- Five starts in ten seconds are allowed, in microseconds.
limit_init-Lag_example :
    (l : Limiter) × (limit_init 10000000 5 1000 ≡ some l)
    × ((is_some (limit_run l (20000000 ∷ 20000001 ∷ [])) ≡ true)
        ↔ Lag 10000000
            ((replicate (capped 5 - 1) 0 ++ 1000 ∷ []) ++ 20000000 ∷ 20000001 ∷ [])
            (20000000 ∷ 20000001 ∷ []))
limit_init-Lag_example =
    limit_init-Lag 10000000 5 1000 (20000000 ∷ 20000001 ∷ []) (omega arith) (omega arith)

abbrev job_of : Service → Job
job_of svc = record { svc = svc; uid = 33; has_pidfile = false }

abbrev some_service : Service
some_service = record {
  name = codes "foo";
  type = forking;
  kill_mode = KillMode.mixed;
  stop_timeout = 90000000;
  restart_policy = on_failure;
  remain_after_exit = false;
  delay = 100000;
  start_limit_interval = 10000000;
  start_limit_burst = 5;
  required = [];
  should = [];
}

-- A round in which poll fails, and one in which a process is collected.
abbrev poll_error : WatchEvent
poll_error = record {
  poll_ok = false;
  now = 100;
  control = none;
  process_event = false;
  connector_ok = true;
  main_pid = none;
  collected = [];
  no_descendants = false;
}

abbrev quiet_round : WatchEvent
quiet_round = record poll_error { poll_ok = true; now = 2 ^ 40 }

abbrev stopping_monitor : Monitor
stopping_monitor = record idle_monitor { state = stopping }

abbrev events : List WatchEvent
events = quiet_round ∷ quiet_round ∷ poll_error ∷ []

abbrev killed : Watch
killed = record (fresh_watch stopping_monitor) {
  sent = 2 ^ 40;
  stopping = 1;
  effects = kill_order false sigterm ∷ [];
}

watched : monitor_watch (job_of some_service) events stopping_monitor ≡ some (false, killed)
unfolding monitor_watch watch_loop watch_round serve_control stop_order process_events
    monitor_is_stopping kill_pass
watched = refl

monitor_watch-orders_example :
    orders killed.effects ≡ take killed.stopping (kill_plan KillMode.mixed)
monitor_watch-orders_example =
    monitor_watch-orders (job_of some_service) events stopping_monitor watched

abbrev unkilled_service : Service
unkilled_service = record some_service { kill_mode = KillMode.none }

abbrev dropped : Watch
dropped = record (fresh_watch stopping_monitor) { effects = drop_process 7 ∷ [] }

dropped_at_once :
    monitor_watch (job_of unkilled_service) events stopping_monitor ≡ some (true, dropped)
unfolding monitor_watch watch_loop watch_round serve_control stop_order process_events
    monitor_is_stopping kill_pass
dropped_at_once = refl

-- The child of a forking service terminates behind a stop order.
abbrev child_exit : WatchEvent
child_exit = record quiet_round {
  process_event = true;
  collected = record { pid = 7; wstatus = 0 } ∷ [];
}

abbrev forked : Watch
forked = fresh_watch (record stopping_monitor { pid = 8 })

process_events_forking_child_example :
    RoundState running (process_events (job_of some_service) child_exit forked)
unfolding is_collected
process_events_forking_child_example =
    process_events_forking_child (job_of some_service) refl child_exit forked refl refl refl

abbrev crashed : Monitor
crashed = record idle_monitor { wstatus = some 11 }

after_watch_table_example :
    let state = (after_watch some_service crashed).state in
    let e = ending crashed.wstatus in
    ((state ≡ remaining) ↔ ((some_service.remain_after_exit ≡ true) × (e ≡ clean)))
    × ((state ≡ restarting) ↔ (
        ¬ ((some_service.remain_after_exit ≡ true) × (e ≡ clean))
        × Restarts some_service.restart_policy e))
    × ((state ≡ failed) ↔ ((e ≢ clean) × ¬ Restarts some_service.restart_policy e))
after_watch_table_example = after_watch_table some_service crashed refl

-- A notify service whose process fails at once.
abbrev notify_job : Job
notify_job = job_of (record some_service { type = notify })

abbrev failing_round : WatchEvent
failing_round = record quiet_round {
  process_event = true;
  collected = record { pid = 7; wstatus = 256 } ∷ [];
}

abbrev failing_pass : Pass
failing_pass = record { clock = 0; waits = []; child = some 7; watches = failing_round ∷ [] }

abbrev starting_loop : Loop
starting_loop = record { monitor = record idle_monitor { state = starting }; limiter = none }

abbrev ended_watch : Watch
ended_watch =
    record (fresh_watch (record idle_monitor { state = starting; child = 0; wstatus = some 256 })) {
      last_pid = 7;
    }

ended_at_once :
    monitor_watch notify_job failing_pass.watches (started notify_job.svc 7 starting_loop.monitor)
    ≡ some (true, ended_watch)
unfolding monitor_watch watch_loop watch_round serve_control stop_order process_events
    monitor_is_stopping kill_pass started monitor_find_main_pid collect collect_child collect_main
    check_done
ended_at_once = refl

case_starting_never_ready_example :
    (l' : Loop) × (dispatch starting notify_job failing_pass starting_loop ≡ some l')
    × (l'.monitor.state ≡ starting)
    × (l'.limiter ≡ starting_loop.limiter)
case_starting_never_ready_example =
    case_starting_never_ready notify_job failing_pass starting_loop 7 (inr (inl refl)) refl refl
      (refl, tt) ended_at_once

-- A monitor that stays in state stopping, polled twice.
abbrev still : Reply
still = response (codes "stopping")

monitor_control_wait_ends_example :
    monitor_control_wait
      (stopped ∷ [])
      (some 1000)
      still
      100
      ((still, 500200) ∷ (still, 1000300) ∷ [])
    ≢ waiting
monitor_control_wait_ends_example =
    monitor_control_wait_ends (stopped ∷ []) 1000 still 100
      ((still, 500200) ∷ (still, 1000300) ∷ []) (omega arith, (omega arith, tt)) (omega arith)
      (omega arith)

reported_running : monitor_control_get_state (response (codes "running")) ≡ got running
unfolding monitor_control_get_state monitor_state_from_name find_state monitor_state_name bytes_eq
reported_running = refl
