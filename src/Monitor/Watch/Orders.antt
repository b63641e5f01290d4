-- ===== src/Monitor/Watch/Orders.antt =====
-- What a watch does to the monitor's state.
use sysvkit.Base.{
  ℕ, zero, suc, ◌≡◌, refl, ap, ◌∙◌, sym, subst, Bool, true, false, not, Option, none, some, List,
  [], ◌∷◌, All, ◌==◌, if◌then◌else◌, arith, ◌||◌, ◌⊎◌, inl, inr, Bool-cases, ==_iff,
}
use sysvkit.Service.Types.{ServiceType, KillMode}
use sysvkit.Monitor.{Monitor, MonitorState, running, monitor_set_state}
use sysvkit.Monitor.Watch.{
  Watch, Exit, WatchEvent, Job, Round, go_on, break, ◌>>=◌, serve_control, kill_pass, stop_order,
  monitor_find_main_pid, collect_child, collect_main, collect, check_done, process_events,
  watch_round, watch_loop, monitor_watch, fresh_watch, is_forking, is_oneshot,
}

abbrev pub RoundState : MonitorState → Round Watch → Type 0
RoundState s (go_on w) = w.monitor.state ≡ s
RoundState s (break ok w) = w.monitor.state ≡ s

-- Whether a process is among those that were collected.
unfoldable pub is_collected : ℕ → List Exit → Bool
is_collected pid [] = false
is_collected pid (e ∷ es) = e.pid == pid || is_collected pid es

searched_child :
    (job : Job) (pid : Option ℕ) (mon : Monitor)
    → (monitor_find_main_pid job pid mon).child ≡ mon.child
unfolding monitor_find_main_pid
searched_child job pid mon = ground arith

check_done_state :
    (job : Job) (status : Option ℕ) (empty : Bool) (w : Watch)
    → is_oneshot job.svc.type ≡ false
    → RoundState w.monitor.state (check_done job status empty w)
unfolding check_done
check_done_state job none empty w no_oneshot = ground arith
check_done_state job (some status) empty w no_oneshot = ground arith

module _ (job : Job) (forks : is_forking job.svc.type ≡ true) where
  collect_main_kept :
      (e : Exit) (w : Watch)
      → ((collect_main job e w).monitor.state ≡ w.monitor.state)
        × ((collect_main job e w).monitor.child ≡ w.monitor.child)
  unfolding collect_main
  collect_main_kept e w = (ground arith, ground arith)

  -- The first child's exit gives state running, and others change nothing of it.
  collect_child_forking :
      (e : Exit) (w : Watch)
      → ((e.pid ≡ w.monitor.child) × ((collect_child job e w).monitor.state ≡ running))
        ⊎ (((e.pid == w.monitor.child) ≡ false) × (collect_child job e w ≡ w))
  unfolding collect_child monitor_set_state
  collect_child_forking e w = elim (Bool-cases (e.pid == w.monitor.child)) [
    | inl same ↦ inl ((==_iff _ _).0 same, rw (same, forks) refl)
    | inr other ↦ inr (other, rw other refl)
  ]

  collect-running :
      (es : List Exit) (w : Watch)
      → w.monitor.state ≡ running
      → (collect job es w).monitor.state ≡ running
  unfolding collect
  collect-running [] w h = h
  collect-running (e ∷ es) w h =
      let w₁ = record w { last_pid = e.pid } in
      collect-running es (collect_main job e (collect_child job e w₁)) (
        (collect_main_kept e (collect_child job e w₁)).0 ∙ elim (collect_child_forking e w₁) [
          | inl (same, q) ↦ q
          | inr (other, q) ↦ ap (λ v. v.monitor.state) q ∙ h
        ])

  collect-is_collected :
      (es : List Exit) (w : Watch)
      → is_collected w.monitor.child es ≡ true
      → (collect job es w).monitor.state ≡ running
  unfolding collect is_collected
  collect-is_collected [] w h = cc
  collect-is_collected (e ∷ es) w h =
      let w₁ = record w { last_pid = e.pid } in
      let w₂ = collect_child job e w₁ in
      let (state_kept, child_kept) = collect_main_kept e w₂ in
      elim (collect_child_forking e w₁) [
        | inl (same, q) ↦ collect-running es (collect_main job e w₂) (state_kept ∙ q)
        | inr (other, q) ↦
            collect-is_collected es (collect_main job e w₂)
              (rw (child_kept ∙ ap (λ v. v.monitor.child) q) (rw other at h))
      ]

  -- When a forking service's first child is among the processes that a round collects, the state is
  -- running behind the round's process events, whatever the state was, whatever else was collected
  -- and however the child ended: a stop or restart order that came before is lost. This is a round in
  -- which a process event came in and the process connector was read without an error.
  pub process_events_forking_child :
      (ev : WatchEvent) (w : Watch)
      → ev.process_event ≡ true
      → ev.connector_ok ≡ true
      → is_collected w.monitor.child ev.collected ≡ true
      → RoundState running (process_events job ev w)
  unfolding process_events
  process_events_forking_child ev w pe ok child =
      rw (pe, ok)
        (subst (λ s. RoundState s (check_done job w₂.monitor.wstatus ev.no_descendants w₂))
          (collect-is_collected ev.collected w₁
            (rw (searched_child job ev.main_pid w.monitor) child))
          (check_done_state job w₂.monitor.wstatus ev.no_descendants w₂ (no_oneshot _ forks)))
    where
      w₁ : Watch
      w₁ = record w { monitor = monitor_find_main_pid job ev.main_pid (w.monitor) }

      w₂ : Watch
      w₂ = collect job ev.collected w₁

      no_oneshot : (t : ServiceType) → is_forking t ≡ true → is_oneshot t ≡ false
      no_oneshot t h = ground arith

-- The watch of a service that is neither forking nor one-shot leaves the state to control clients.
abbrev pub NoClient : WatchEvent → Type 0
NoClient ev = ev.control ≡ none

kill_pass_state :
    (mode : KillMode) (now n : ℕ) (w : Watch) → RoundState w.monitor.state (kill_pass mode now n w)
unfolding kill_pass
kill_pass_state mode now zero w = refl
kill_pass_state mode now (suc zero) w = refl
kill_pass_state mode now (suc (suc zero)) w = refl
kill_pass_state mode now (suc (suc (suc n))) w = refl

module _ (job : Job) (no_fork : is_forking job.svc.type ≡ false)
    (no_oneshot : is_oneshot job.svc.type ≡ false) where
  collect_state : (es : List Exit) (w : Watch) → (collect job es w).monitor.state ≡ w.monitor.state
  unfolding collect
  collect_state [] w = refl
  collect_state (e ∷ es) w =
      let w₁ = record w { last_pid = e.pid } in
      let w₂ = collect_child job e w₁ in
      collect_state es (collect_main job e w₂) ∙ main e w₂ ∙ child e w₁
    where
      main : (e : Exit) (v : Watch) → (collect_main job e v).monitor.state ≡ v.monitor.state
      main e v = unfold collect_main in ground arith

      child : (e : Exit) (v : Watch) → (collect_child job e v).monitor.state ≡ v.monitor.state
      child e v = unfold collect_child in rw no_fork (ground arith)

  stop_order_state : (now : ℕ) (w : Watch) → RoundState w.monitor.state (stop_order job now w)
  unfolding stop_order
  stop_order_state now w = ground (arith, kill_pass_state job.svc.kill_mode now (suc w.stopping) w)

  searched_state :
      (pid : Option ℕ) (mon : Monitor) → (monitor_find_main_pid job pid mon).state ≡ mon.state
  unfolding monitor_find_main_pid
  searched_state pid mon = ground arith

  process_events_state :
      (ev : WatchEvent) (w : Watch) → RoundState w.monitor.state (process_events job ev w)
  process_events_state ev w =
      unfold process_events in
      tests (not ev.process_event) (not ev.connector_ok)
        (check_done job w₂.monitor.wstatus ev.no_descendants w₂)
        (subst (λ s. RoundState s (check_done job w₂.monitor.wstatus ev.no_descendants w₂))
          (collect_state ev.collected w₁ ∙ searched_state ev.main_pid w.monitor)
          (check_done_state job w₂.monitor.wstatus ev.no_descendants w₂ no_oneshot))
    where
      w₁ : Watch
      w₁ = record w { monitor = monitor_find_main_pid job ev.main_pid (w.monitor) }

      w₂ : Watch
      w₂ = collect job ev.collected w₁

      tests :
          (a b : Bool) (r : Round Watch)
          → RoundState w.monitor.state r
          → RoundState w.monitor.state (if a then go_on w else if b then break false w else r)
      tests true b r h = refl
      tests false true r h = refl
      tests false false r h = h

  watch_round_state :
      (ev : WatchEvent) (w : Watch)
      → NoClient ev
      → RoundState w.monitor.state (watch_round job ev w)
  unfolding process_events
  watch_round_state ev w quiet =
      unfold watch_round serve_control in rw quiet (polled (not ev.poll_ok))
    where
      after :
          (r : Round Watch)
          → RoundState w.monitor.state r
          → RoundState w.monitor.state (r >>= λ w₂. process_events job ev w₂)
      after (go_on w₂) h =
          subst (λ s. RoundState s (process_events job ev w₂)) h (process_events_state ev w₂)
      after (break ok w₂) h = h

      polled :
          (lost : Bool)
          → RoundState w.monitor.state (
              if lost
              then break false w
              else stop_order job ev.now w >>= λ w₂. process_events job ev w₂)
      polled true = refl
      polled false = after (stop_order job ev.now w) (stop_order_state ev.now w)

  watch_loop_state :
      (evs : List WatchEvent) (w : Watch) {ok : Bool} {w' : Watch}
      → All NoClient evs
      → watch_loop job evs w ≡ some (ok, w')
      → w'.monitor.state ≡ w.monitor.state
  unfolding watch_loop
  watch_loop_state [] w q h = cc
  watch_loop_state (ev ∷ evs) w {ok} {w'} (q, qs) h =
      go (watch_round job ev w) (watch_round_state ev w q)
        (λ u e. watch_loop_state evs u {ok = ok} {w' = w'} qs e) h
    where
      go :
          (r : Round Watch)
          → RoundState w.monitor.state r
          → ((u : Watch)
              → watch_loop job evs u ≡ some (ok, w')
              → w'.monitor.state ≡ u.monitor.state)
          → elim r as (λ _. Option (Bool × Watch)) [
            | go_on u ↦ watch_loop job evs u
            | break ok₁ u ↦ some (ok₁, u)
          ]
            ≡ some (ok, w')
          → w'.monitor.state ≡ w.monitor.state
      go (go_on u) g later e = later u e ∙ g
      go (break ok₁ u) g later e =
          let same : u ≡ w' = cc in ap (λ v. v.monitor.state) (sym same) ∙ g

  -- In a watch with no control client, such a service's state is the same at the end.
  pub monitor_watch_state :
      (evs : List WatchEvent) (mon : Monitor) {ok : Bool} {w : Watch}
      → All NoClient evs
      → monitor_watch job evs mon ≡ some (ok, w)
      → w.monitor.state ≡ mon.state
  unfolding monitor_watch
  monitor_watch_state evs mon {ok} {w} q h =
      watch_loop_state evs (fresh_watch mon) {ok = ok} {w' = w} q h
