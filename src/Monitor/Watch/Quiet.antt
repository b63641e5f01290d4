-- ===== src/Monitor/Watch/Quiet.antt =====
-- The kill orders of a watch against its kill mode's plan, and the steps that send none.
use sysvkit.Base.{
  ℕ, ◌≡◌, refl, ap, ◌∙◌, sym, Bool, true, false, not, Option, none, some, List, [], ◌∷◌, ◌++◌,
  append-nil, take, if◌then◌else◌, arith,
}
use sysvkit.Service.Types.{KillMode, cgroup, mixed, process}
use sysvkit.Monitor.{Monitor, running, monitor_set_state}
use sysvkit.Monitor.Watch.{
  Signal, sigterm, sigkill, Effect, kill_order, drop_process, report_ready, remove_pid_file, Watch,
  Exit, WatchEvent, Job, Round, go_on, break, monitor_find_main_pid, collect_child, collect_main,
  collect, check_done, process_events, is_cgroup, add_effect,
}

-- The kill orders among the effects, in order: to all descendants or not, and the signal.
unfoldable pub orders : List Effect → List (Bool × Signal)
orders [] = []
orders (kill_order all signal ∷ es) = (all, signal) ∷ orders es
orders (drop_process pid ∷ es) = orders es
orders (report_ready ∷ es) = orders es
orders (remove_pid_file ∷ es) = orders es

-- SIGTERM, then SIGKILL: to all processes for `control-group`, first to the main process and then
-- to all for `mixed`, to the main process for `process`; nothing for `none`.
unfoldable pub kill_plan : KillMode → List (Bool × Signal)
kill_plan cgroup = (true, sigterm) ∷ (true, sigkill) ∷ []
kill_plan mixed = (false, sigterm) ∷ (true, sigkill) ∷ []
kill_plan process = (false, sigterm) ∷ (false, sigkill) ∷ []
kill_plan KillMode.none = []

-- The watch has sent the first `stopping` orders of the plan.
pub record Follows (mode : KillMode) (w : Watch) : Type 0 where
  pub sent_orders : orders w.effects ≡ take w.stopping (kill_plan mode)
  pub kept_all : (w.stopping ≡ 0 → w.all ≡ false) × (w.stopping ≡ 1 → w.all ≡ is_cgroup mode)
  pub never : mode ≡ KillMode.none → w.stopping ≡ 0

abbrev pub RoundFollows : KillMode → Round Watch → Type 0
RoundFollows mode (go_on w) = Follows mode w
RoundFollows mode (break ok w) = Follows mode w

pub orders-append : (es fs : List Effect) → orders (es ++ fs) ≡ orders es ++ orders fs
unfolding orders
orders-append [] fs = refl
orders-append (kill_order all signal ∷ es) fs = ap (◌∷◌ (all, signal)) (orders-append es fs)
orders-append (drop_process pid ∷ es) fs = orders-append es fs
orders-append (report_ready ∷ es) fs = orders-append es fs
orders-append (remove_pid_file ∷ es) fs = orders-append es fs

-- Steps that send no order and leave the loop's counters alone.
pub record Quiet (w w' : Watch) : Type 0 where
  pub same_orders : orders w'.effects ≡ orders w.effects
  pub same_all : w'.all ≡ w.all
  pub same_stopping : w'.stopping ≡ w.stopping

pub Quiet-Follows : (mode : KillMode) (w w' : Watch) → Quiet w w' → Follows mode w → Follows mode w'
Quiet-Follows mode w w' q f = record {
  sent_orders =
      q.same_orders ∙ f.sent_orders ∙ ap (λ n. take n (kill_plan mode)) (sym q.same_stopping);
  kept_all = (
    (λ h. q.same_all ∙ f.kept_all.0 (sym q.same_stopping ∙ h)),
    λ h. q.same_all ∙ f.kept_all.1 (sym q.same_stopping ∙ h),
  );
  never = λ h. q.same_stopping ∙ f.never h;
}

pub collect_child-Quiet : (job : Job) (e : Exit) (w : Watch) → Quiet w (collect_child job e w)
unfolding collect_child
collect_child-Quiet job e w =
    ground
      (arith, orders-append w.effects (report_ready ∷ []), append-nil (orders w.effects), ready)
  where
    ready : orders (report_ready ∷ []) ≡ []
    ready = unfold orders in refl

pub collect_main-Quiet : (job : Job) (e : Exit) (w : Watch) → Quiet w (collect_main job e w)
unfolding collect_main
collect_main-Quiet job e w =
    ground (
      arith,
      orders-append w.effects (remove_pid_file ∷ []),
      append-nil (orders w.effects),
      removed,
    )
  where
    removed : orders (remove_pid_file ∷ []) ≡ []
    removed = unfold orders in refl

pub Quiet-refl : (w : Watch) → Quiet w w
Quiet-refl w = record { same_orders = refl; same_all = refl; same_stopping = refl }

pub Quiet-trans : (a b c : Watch) → Quiet a b → Quiet b c → Quiet a c
Quiet-trans a b c p q = record {
  same_orders = q.same_orders ∙ p.same_orders;
  same_all = q.same_all ∙ p.same_all;
  same_stopping = q.same_stopping ∙ p.same_stopping;
}

-- A change of the monitor or of the collected pid alone.
pub moved-Quiet :
    (w : Watch) (mon : Monitor) (pid : ℕ) → Quiet w (record w { monitor = mon; last_pid = pid })
moved-Quiet w mon pid = record { same_orders = refl; same_all = refl; same_stopping = refl }

pub collect-Quiet : (job : Job) (es : List Exit) (w : Watch) → Quiet w (collect job es w)
unfolding collect
collect-Quiet job [] w = Quiet-refl w
collect-Quiet job (e ∷ es) w =
    let w₁ = record w { last_pid = e.pid } in
    let w₂ = collect_child job e w₁ in
    let w₃ = collect_main job e w₂ in
    Quiet-trans w w₁ _ (moved-Quiet w w.monitor e.pid) (
      Quiet-trans w₁ w₂ _ (collect_child-Quiet job e w₁)
        (Quiet-trans w₂ w₃ _ (collect_main-Quiet job e w₂) (collect-Quiet job es w₃)))

abbrev pub RoundQuiet : Watch → Round Watch → Type 0
RoundQuiet w (go_on w') = Quiet w w'
RoundQuiet w (break ok w') = Quiet w w'

pub quiet-RoundFollows :
    (mode : KillMode) (w : Watch) (r : Round Watch)
    → RoundQuiet w r
    → Follows mode w
    → RoundFollows mode r
quiet-RoundFollows mode w (go_on w') q f = Quiet-Follows mode w w' q f
quiet-RoundFollows mode w (break ok w') q f = Quiet-Follows mode w w' q f

pub effect-Quiet :
    (w : Watch) (mon : Monitor) (e : Effect)
    → orders (e ∷ []) ≡ []
    → Quiet w (add_effect e (record w { monitor = mon }))
effect-Quiet w mon e h = record {
  same_orders = orders-append w.effects (e ∷ []) ∙ ap (λ l. orders w.effects ++ l) h ∙ append-nil _;
  same_all = refl;
  same_stopping = refl;
}

pub no_orders :
    (pid : ℕ) → (orders (report_ready ∷ []) ≡ []) × (orders (drop_process pid ∷ []) ≡ [])
unfolding orders
no_orders pid = (refl, refl)

pub check_done_Quiet :
    (job : Job) (status : Option ℕ) (empty : Bool) (w : Watch)
    → RoundQuiet w (check_done job status empty w)
unfolding check_done
check_done_Quiet job none empty w = ground (arith, Quiet-refl w)
check_done_Quiet job (some status) empty w = ground (
  arith,
  Quiet-refl w,
  effect-Quiet w (monitor_set_state w.monitor running) report_ready (no_orders 0).0,
)

pub process_events_Quiet :
    (job : Job) (ev : WatchEvent) (w : Watch) → RoundQuiet w (process_events job ev w)
unfolding process_events
process_events_Quiet job ev w =
    let w₁ = record w { monitor = monitor_find_main_pid job ev.main_pid (w.monitor) } in
    let w₂ = collect job ev.collected w₁ in
    checked (not ev.process_event) (not ev.connector_ok) w₂ _
      (Quiet-trans w w₁ w₂
        (moved-Quiet w (monitor_find_main_pid job ev.main_pid (w.monitor)) w.last_pid)
        (collect-Quiet job ev.collected w₁))
      (check_done_Quiet job w₂.monitor.wstatus ev.no_descendants w₂)
  where
    after : (a b : Watch) (r : Round Watch) → Quiet a b → RoundQuiet b r → RoundQuiet a r
    after a b (go_on c) p q = Quiet-trans a b c p q
    after a b (break ok c) p q = Quiet-trans a b c p q

    checked :
        (x y : Bool) (w₂ : Watch) (r : Round Watch)
        → Quiet w w₂
        → RoundQuiet w₂ r
        → RoundQuiet w (if x then go_on w else if y then break false w else r)
    checked true y w₂ r p q = Quiet-refl w
    checked false true w₂ r p q = Quiet-refl w
    checked false false w₂ r p q = after w w₂ r p q
