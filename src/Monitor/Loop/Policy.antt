-- ===== src/Monitor/Loop/Policy.antt =====
-- When the monitor restarts a service whose watch has ended.
use mathlib.Core.Bool.{◌||◌}
use sysvkit.Base.{
  ℕ, ◌/◌, ◌%◌, ◌≡◌, refl, ◌≢◌, ◌↔◌, Bool, true, false, not, ◌&&◌, Option, none, some, ◌==◌,
  if◌then◌else◌, arith, subst, sym, ◌∙◌,
}
use mathlib.Core.Path.{ap₂}
use sysvkit.Service.Types.{
  RestartPolicy, no_restart, always, on_success, on_failure, on_abnormal, on_abort, Service,
}
use sysvkit.Monitor.{
  Monitor, MonitorState, restarting, running, remaining, stopped, failed, monitor_set_state,
}
use sysvkit.Monitor.Loop.{ucexit, ucsig, restart_indicated, after_watch}

-- How a main process ended: cleanly (also where its end is not known), with a status other than 0,
-- or by a signal other than SIGHUP, SIGINT, SIGTERM and SIGPIPE.
pub data Ending : Type 0 where
  clean unclean_exit unclean_signal : Ending

-- The exit status stands in the second byte where the low seven bits are 0; else these are the
-- signal, and 127 stands for no end.
unfoldable pub ending : Option ℕ → Ending
ending none = clean
ending (some w) =
    if w % 128 == 0
    then (if w / 256 % 256 == 0 then clean else unclean_exit)
    else if w % 128 == 127 || w % 128 == 1 || w % 128 == 2 || w % 128 == 13 || w % 128 == 15
    then clean
    else unclean_signal

-- The table of Restart= settings and endings.
abbrev pub Restarts : RestartPolicy → Ending → Type 0
Restarts always e = Unit
Restarts on_success clean = Unit
Restarts on_failure unclean_exit = Unit
Restarts on_failure unclean_signal = Unit
Restarts on_abnormal unclean_signal = Unit
Restarts on_abort unclean_signal = Unit
Restarts _ _ = ⊥

-- The two flags of the code are the ending.
abbrev pub flags : Ending → Bool × Bool
flags clean = (false, false)
flags unclean_exit = (true, false)
flags unclean_signal = (false, true)

uc_flags : (w : Option ℕ) → (ucexit w ≡ (flags (ending w)).0) × (ucsig w ≡ (flags (ending w)).1)
unfolding ucexit ucsig ending
uc_flags none = (refl, refl)
uc_flags (some w) = (ground arith, ground arith)

-- The state that a pass in state running ends in, by the service's settings and the ending.
verdict : Bool → RestartPolicy → Bool → Bool → MonitorState
verdict remain policy exit sig =
    if remain && not exit && not sig
    then remaining
    else if restart_indicated policy exit sig
    then restarting
    else if exit || sig
    then failed
    else stopped

after_watch-verdict :
    (svc : Service) (mon : Monitor)
    → mon.state ≡ running
    → (after_watch svc mon).state
      ≡ verdict svc.remain_after_exit svc.restart_policy (ucexit mon.wstatus) (ucsig mon.wstatus)
unfolding after_watch verdict monitor_set_state
after_watch-verdict svc mon h = ground arith

abbrev Settled : Bool → RestartPolicy → Ending → MonitorState → Type 0
Settled remain policy e state =
    ((state ≡ remaining) ↔ ((remain ≡ true) × (e ≡ clean)))
    × ((state ≡ restarting) ↔ (¬ ((remain ≡ true) × (e ≡ clean)) × Restarts policy e))
    × ((state ≡ failed) ↔ ((e ≢ clean) × ¬ Restarts policy e))

settled :
    (remain : Bool) (policy : RestartPolicy) (e : Ending)
    → Settled remain policy e (verdict remain policy (flags e).0 (flags e).1)
unfolding verdict restart_indicated
settled true no_restart clean = grind arith
settled _ _ _ = grind arith

-- A pass in state running whose watch has ended goes to `remaining` exactly for a clean ending with
-- RemainAfterExit; else it restarts exactly where the table of Restart= says so; it fails exactly
-- where the ending is unclean and the table has no restart.
pub after_watch_table :
    (svc : Service) (mon : Monitor)
    → mon.state ≡ running
    → let state = (after_watch svc mon).state in
      let e = ending mon.wstatus in
      ((state ≡ remaining) ↔ ((svc.remain_after_exit ≡ true) × (e ≡ clean)))
      × ((state ≡ restarting)
          ↔ (¬ ((svc.remain_after_exit ≡ true) × (e ≡ clean)) × Restarts svc.restart_policy e))
      × ((state ≡ failed) ↔ ((e ≢ clean) × ¬ Restarts svc.restart_policy e))
after_watch_table svc mon h =
    subst (Settled svc.remain_after_exit svc.restart_policy (ending mon.wstatus))
      (sym (
        after_watch-verdict svc mon h
        ∙ ap₂ (verdict svc.remain_after_exit svc.restart_policy) (uc_flags mon.wstatus).0
            (uc_flags mon.wstatus).1))
      (settled svc.remain_after_exit svc.restart_policy (ending mon.wstatus))
