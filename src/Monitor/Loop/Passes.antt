-- ===== src/Monitor/Loop/Passes.antt =====
-- The passes of the monitor's main loop.
use sysvkit.Base.{ℕ, ◌≡◌, refl, ap, ◌∙◌, ◌⊎◌, true, false, some, arith, All}
use sysvkit.Service.Types.{Service, ServiceType, dbus, notify, idle}
use sysvkit.Monitor.{Monitor, starting}
use sysvkit.Monitor.Watch.{Job, Watch, monitor_watch, is_forking, is_oneshot}
use sysvkit.Monitor.Watch.Orders.{NoClient, monitor_watch_state}
use sysvkit.Monitor.Loop.{
  Pass, Loop, after_watch, case_running, case_starting, started, ready_at_start, dispatch,
}

forked_starting :
    (job : Job) (pass : Pass) (l : Loop) (child : ℕ)
    → pass.child ≡ some child
    → case_starting job pass l
      ≡ case_running job pass (record l { monitor = started job.svc child l.monitor })
unfolding case_starting
forked_starting job pass l child h = ground arith

watched_running :
    (job : Job) (pass : Pass) (l : Loop) (w : Watch)
    → monitor_watch job pass.watches l.monitor ≡ some (true, w)
    → case_running job pass l ≡ some (record l { monitor = after_watch job.svc w.monitor })
unfolding case_running
watched_running job pass l w h = rw (h, case_running)

-- A pass from state starting of a service of type dbus, notify or idle, in which the fork works, no
-- control client connects during the watch, and the watch ends without an error: the state is starting
-- afterwards, whatever the service's restart policy is and however its main process ended, so that the
-- next pass starts it again, with no look at the start limit: the ring is as it was.
pub case_starting_never_ready :
    (job : Job) (pass : Pass) (l : Loop) (child : ℕ) {w : Watch}
    → (job.svc.type ≡ dbus) ⊎ (job.svc.type ≡ notify) ⊎ (job.svc.type ≡ idle)
    → l.monitor.state ≡ starting
    → pass.child ≡ some child
    → All NoClient pass.watches
    → monitor_watch job pass.watches (started job.svc child l.monitor) ≡ some (true, w)
    → (l' : Loop) × (dispatch starting job pass l ≡ some l')
      × (l'.monitor.state ≡ starting)
      × (l'.limiter ≡ l.limiter)
unfolding dispatch
case_starting_never_ready job pass l child {w} type st forked quiet ended =
    let (slow, no_fork, no_oneshot) = kinds job.svc.type type in
    let kept : w.monitor.state ≡ starting =
      monitor_watch_state job no_fork no_oneshot pass.watches (started job.svc child l.monitor)
        {ok = true} {w = w} quiet ended
      ∙ same_state job.svc child l.monitor slow
      ∙ st in
    (
      record { monitor = w.monitor; limiter = l.limiter },
      forked_starting job pass l child forked
          ∙ watched_running job pass (record l { monitor = started job.svc child l.monitor }) w
              ended
          ∙ (ap (λ m. some (record { monitor = m; limiter = l.limiter }))
              (unchanged job.svc w.monitor kept)),
      kept,
      refl,
    )
  where
    kinds :
        (t : ServiceType)
        → (t ≡ dbus) ⊎ (t ≡ notify) ⊎ (t ≡ idle)
        → (ready_at_start t ≡ false) × (is_forking t ≡ false) × (is_oneshot t ≡ false)
    kinds t h = ground arith

    same_state :
        (svc : Service) (child : ℕ) (mon : Monitor)
        → ready_at_start svc.type ≡ false
        → (started svc child mon).state ≡ mon.state
    same_state svc child mon h = unfold started in rw h

    unchanged : (svc : Service) (mon : Monitor) → mon.state ≡ starting → after_watch svc mon ≡ mon
    unchanged svc mon h = unfold after_watch in rw h
