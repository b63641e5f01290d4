-- ===== src/Monitor/Watch/Escalation.antt =====
-- The kill orders of a whole watch, and its kill mode's plan.
use mathlib.Core.Bool.{◌||◌}
use sysvkit.Base.{
  ℕ, zero, suc, ◌≡◌, refl, ap, ◌∙◌, sym, ◌≢◌, subst, Bool, true, false, not, Option, none, some,
  List, [], ◌∷◌, ◌++◌, take, ltb, ◌==◌, if◌then◌else◌, arith,
}
use sysvkit.Service.Types.{KillMode, cgroup, mixed, process}
use sysvkit.Monitor.{Monitor}
use sysvkit.Monitor.Control.{Connection, monitor_control_socket_ingest}
use sysvkit.Monitor.Watch.{
  Signal, sigterm, sigkill, kill_order, drop_process, Watch, WatchEvent, Job, Round, go_on, break,
  ◌>>=◌, serve_control, kill_pass, stop_order, process_events, watch_round, watch_loop,
  monitor_watch, fresh_watch, is_cgroup, is_mixed, is_none, add_effect,
}
use sysvkit.Monitor.Watch.Quiet.{
  orders, kill_plan, Follows, RoundFollows, orders-append, Quiet-refl, moved-Quiet, RoundQuiet,
  Quiet-Follows, quiet-RoundFollows, effect-Quiet, no_orders, process_events_Quiet,
}

order-append :
    (w : Watch) (all : Bool) (signal : Signal)
    → orders (w.effects ++ kill_order all signal ∷ []) ≡ orders w.effects ++ (all, signal) ∷ []
order-append w all signal =
    orders-append w.effects (kill_order all signal ∷ []) ∙ (unfold orders in refl)

-- The plan's first order, and its second behind the first.
plan_first :
    (mode : KillMode)
    → mode ≢ KillMode.none
    → (is_cgroup mode, sigterm) ∷ [] ≡ take 1 (kill_plan mode)
unfolding kill_plan
plan_first cgroup h = refl
plan_first mixed h = refl
plan_first process h = refl
plan_first KillMode.none h = absurd (h refl)

plan_second :
    (mode : KillMode)
    → mode ≢ KillMode.none
    → take 1 (kill_plan mode) ++ (is_cgroup mode || is_mixed mode, sigkill) ∷ []
      ≡ take 2 (kill_plan mode)
unfolding kill_plan
plan_second cgroup h = refl
plan_second mixed h = refl
plan_second process h = refl
plan_second KillMode.none h = absurd (h refl)

plan_whole :
    (mode : KillMode) (n : ℕ)
    → take (suc (suc (suc n))) (kill_plan mode) ≡ take (suc (suc n)) (kill_plan mode)
unfolding kill_plan
plan_whole cgroup zero = refl
plan_whole cgroup (suc n) = refl
plan_whole mixed zero = refl
plan_whole mixed (suc n) = refl
plan_whole process zero = refl
plan_whole process (suc n) = refl
plan_whole KillMode.none n = refl

kill_pass-Follows :
    (mode : KillMode) (now n : ℕ) (w : Watch)
    → w.stopping ≡ n
    → mode ≢ KillMode.none
    → Follows mode w
    → RoundFollows mode (kill_pass mode now (suc n) w)
unfolding kill_pass
kill_pass-Follows mode now zero w e h f = record {
  sent_orders =
      order-append w (w.all || is_cgroup mode) sigterm
      ∙ (rw (f.sent_orders, e, f.kept_all.0 e) (plan_first mode h));
  kept_all = ((λ p. absurd (omega arith)), λ p. rw (f.kept_all.0 e));
  never = λ p. absurd (h p);
}
kill_pass-Follows mode now (suc zero) w e h f = record {
  sent_orders =
      order-append w (w.all || is_mixed mode) sigkill
      ∙ (rw (f.sent_orders, e, f.kept_all.1 e) (plan_second mode h));
  kept_all = ((λ p. absurd (omega arith)), λ p. absurd (omega arith));
  never = λ p. absurd (h p);
}
kill_pass-Follows mode now (suc (suc n)) w e h f = record {
  sent_orders = f.sent_orders ∙ (rw e (sym (plan_whole mode n)));
  kept_all = ((λ p. absurd (omega arith)), λ p. absurd (omega arith));
  never = λ p. absurd (h p);
}

not_none : (mode : KillMode) → is_none mode ≡ false → mode ≢ KillMode.none
not_none mode h e = cc (rw e at h)

drop_Follows :
    (mode : KillMode) (w : Watch) (pid : ℕ)
    → Follows mode w
    → Follows mode (add_effect (drop_process pid) w)
drop_Follows mode w pid f =
    Quiet-Follows mode w _ (effect-Quiet w w.monitor (drop_process pid) (no_orders pid).1) f

stop_order-Follows :
    (job : Job) (now : ℕ) (w : Watch)
    → Follows job.svc.kill_mode w
    → RoundFollows job.svc.kill_mode (stop_order job now w)
stop_order-Follows job now w f =
    unfold stop_order in
    branches _ (w.monitor.pid == 0) (ltb 0 w.sent) (is_none job.svc.kill_mode) refl
  where
    mode : KillMode
    mode = job.svc.kill_mode

    branches :
        (due no_main again none_mode : Bool)
        → is_none mode ≡ none_mode
        → RoundFollows mode (
            if due
            then (if no_main
                then (if again
                    then break true (add_effect (drop_process w.monitor.child) w)
                    else go_on (record w { sent = now }))
                else if none_mode
                then break true (add_effect (drop_process w.monitor.pid) w)
                else kill_pass mode now (suc w.stopping) w)
            else go_on w)
    branches false no_main again none_mode e = f
    branches true true true none_mode e = drop_Follows mode w w.monitor.child f
    branches true true false none_mode e = record {
      sent_orders = f.sent_orders;
      kept_all = f.kept_all;
      never = f.never;
    }
    branches true false again true e = drop_Follows mode w w.monitor.pid f
    branches true false again false e =
        kill_pass-Follows mode now w.stopping w refl (not_none mode e) f

serve_control_Quiet :
    (job : Job) (client : Option Connection) (w : Watch) → RoundQuiet w (serve_control job client w)
unfolding serve_control
serve_control_Quiet job none w = Quiet-refl w
serve_control_Quiet job (some conn) w =
    ground (
      arith,
      moved-Quiet w (monitor_control_socket_ingest conn job.uid w.monitor).monitor w.last_pid,
    )

watch_round-Follows :
    (job : Job) (ev : WatchEvent) (w : Watch)
    → Follows job.svc.kill_mode w
    → RoundFollows job.svc.kill_mode (watch_round job ev w)
watch_round-Follows job ev w f = unfold watch_round in polled (not ev.poll_ok)
  where
    mode : KillMode
    mode = job.svc.kill_mode

    behind_order :
        (r : Round Watch)
        → RoundFollows mode r
        → RoundFollows mode (r >>= λ w₂. process_events job ev w₂)
    behind_order (break ok w₂) g = g
    behind_order (go_on w₂) g =
        quiet-RoundFollows mode w₂ (process_events job ev w₂) (process_events_Quiet job ev w₂) g

    behind_control :
        (r : Round Watch)
        → RoundFollows mode r
        → RoundFollows mode
            (r >>= λ w₁. stop_order job ev.now w₁ >>= λ w₂. process_events job ev w₂)
    behind_control (break ok w₁) g = g
    behind_control (go_on w₁) g =
        behind_order (stop_order job ev.now w₁) (stop_order-Follows job ev.now w₁ g)

    polled :
        (lost : Bool)
        → RoundFollows mode (
            if lost
            then break false w
            else serve_control job ev.control w >>= λ w₁.
                stop_order job ev.now w₁ >>= λ w₂. process_events job ev w₂)
    polled true = f
    polled false = behind_control (serve_control job ev.control w) (
        quiet-RoundFollows mode w (serve_control job ev.control w)
          (serve_control_Quiet job ev.control w) f)

watch_loop-Follows :
    (job : Job) (evs : List WatchEvent) (w : Watch) (ok : Bool) (w' : Watch)
    → Follows job.svc.kill_mode w
    → watch_loop job evs w ≡ some (ok, w')
    → Follows job.svc.kill_mode w'
unfolding watch_loop
watch_loop-Follows job [] w ok w' f h = cc
watch_loop-Follows job (ev ∷ evs) w ok w' f h =
    go (watch_round job ev w) (watch_round-Follows job ev w f)
      (λ u g. watch_loop-Follows job evs u ok w' g) h
  where
    go :
        (r : Round Watch)
        → RoundFollows job.svc.kill_mode r
        → ((u : Watch)
            → Follows job.svc.kill_mode u
            → watch_loop job evs u ≡ some (ok, w')
            → Follows job.svc.kill_mode w')
        → elim r as (λ _. Option (Bool × Watch)) [
          | go_on u ↦ watch_loop job evs u
          | break ok₁ u ↦ some (ok₁, u)
        ]
          ≡ some (ok, w')
        → Follows job.svc.kill_mode w'
    go (go_on u) g later e = later u g e
    go (break ok₁ u) g later e = let same : u ≡ w' = cc in subst (Follows job.svc.kill_mode) same g

watch_Follows :
    (job : Job) (evs : List WatchEvent) (mon : Monitor) {ok : Bool} {w : Watch}
    → monitor_watch job evs mon ≡ some (ok, w)
    → Follows job.svc.kill_mode w
unfolding monitor_watch
watch_Follows job evs mon {ok} {w} h =
    watch_loop-Follows job evs (fresh_watch mon) ok w (start job.svc.kill_mode) h
  where
    start : (mode : KillMode) → Follows mode (fresh_watch mon)
    start mode = record {
      sent_orders = unfold orders in refl;
      kept_all = ((λ _. refl), λ p. absurd (omega arith));
      never = λ _. refl;
    }

-- Whatever a watch meets, the kill orders that it has sent when it ends are those of its kill
-- mode's plan, one for each pass that was made: a signal to the processes that the mode names, then
-- SIGKILL, and never a third.
pub monitor_watch-orders :
    (job : Job) (evs : List WatchEvent) (mon : Monitor) {ok : Bool} {w : Watch}
    → monitor_watch job evs mon ≡ some (ok, w)
    → orders w.effects ≡ take w.stopping (kill_plan job.svc.kill_mode)
monitor_watch-orders job evs mon h = (watch_Follows job evs mon h).sent_orders

-- With KillMode `none`, a watch has sent no kill order when it ends.
pub monitor_watch_none :
    (job : Job) (evs : List WatchEvent) (mon : Monitor) {ok : Bool} {w : Watch}
    → job.svc.kill_mode ≡ KillMode.none
    → monitor_watch job evs mon ≡ some (ok, w)
    → orders w.effects ≡ []
monitor_watch_none job evs mon e h =
    let f = watch_Follows job evs mon h in
    f.sent_orders ∙ ap (λ n. take n (kill_plan job.svc.kill_mode)) (f.never e)
