-- ===== src/Procwatch/Ingest.antt =====
-- procwatch_ingest of src/common/procwatch.c keeps the table well-formed.
use sysvkit.Base.{
  ℕ, ◌≡◌, ◌≢◌, ◌⊎◌, refl, ap, ◌∙◌, true, false, none, some, ◌==◌, Option-cases, Bool-cases, inl,
  inr, arith, esrch,
}
use sysvkit.Procwatch.Store.{Procs, Run, Ends, pure, ◌>>◌, load, has, get}
use sysvkit.Procwatch.Operations.{process_get, process_insert, process_exit, process_drop}
use sysvkit.Procwatch.Events.{
  Event, Callback, Action, default, drop, WatchedEvent, on_exec, on_setsid, callback, take_action,
  act, act_found, act_inserted, handle, actor, handle_known, procwatch_ingest, sigchld,
}
use sysvkit.Procwatch.Shape.{IsWell}
use sysvkit.Procwatch.Links.{Ends-bind, errno-IsWell}
use sysvkit.Procwatch.Descendants.{OnlyWithout, process_drop-OnlyWithout}
use sysvkit.Procwatch.Exits.{IsReadied, process_exit-IsReadied}
use sysvkit.Procwatch.Inserts.{
  IsChild, process_insert-IsChild, process_insert-known, process_insert-session,
}

-- A process is not init.
abbrev pub NotInit : Procs → ℕ → Type 0
NotInit s tgid = (a : ℕ) → get tgid s.processes ≡ some a → a ≢ s.proc_init

-- What is expected of the kernel: init executes nothing, starts no session and does not end, and no
-- process ends again while it is still to be collected.
abbrev pub AsExpected : Procs → Event → Type 0
AsExpected s (Event.exec tgid) = NotInit s tgid
AsExpected s (Event.new_session tgid) = NotInit s tgid
AsExpected s (Event.exit tgid code signal) =
    NotInit s tgid × ((a : ℕ) → get tgid s.processes ≡ some a → has a s.ready ≡ false)
AsExpected s _ = Unit

abbrev Keeps : {A : Type 0} → Run A → Type 0
Keeps r = Ends (λ _ s'. IsWell s') r

take_action-Keeps :
    (c : Action) (a : ℕ) {s : Procs}
    → IsWell s
    → s.live a ≡ true
    → a ≢ s.proc_init
    → Keeps (take_action (s.at a).pid c s)
unfolding take_action
take_action-Keeps default a w alive ne = w
take_action-Keeps drop a {s} w alive ne =
    Ends-bind (λ r s'. (r ≡ true) × IsWell s' × OnlyWithout a s s') (λ _ s'. IsWell s')
      (process_drop (s.at a).pid s) _
      (process_drop-OnlyWithout s (s.at a).pid a w (w.listed a alive) ne) (λ r s' (_, w', _). w')

act-Keeps :
    (cb : Callback) (ev : WatchedEvent) (a : ℕ) {s : Procs}
    → IsWell s
    → s.live a ≡ true
    → a ≢ s.proc_init
    → Keeps (act cb ev a s)
unfolding act load
act-Keeps cb ev a {s} w alive ne =
    rw (load, alive) (take_action-Keeps (callback cb ev (s.at a)) a w alive ne)

-- The branches of the switch, for a process that the table holds.
module _ (cb : Callback) {s : Procs} (w : IsWell s) (tgid a : ℕ)
    (known : get tgid s.processes ≡ some a) where
  alive : s.live a ≡ true
  alive = (w.in_table tgid a known).0

  fork-Keeps : (tid child : ℕ) → Keeps (handle cb (Event.fork tgid tid child) s)
  unfolding handle
  fork-Keeps tid child = elim (Bool-cases (child == tid)) [
    | inr e ↦ rw e w
    | inl e ↦ elim (Bool-cases (tgid == 1)) [
      | inl f ↦ rw (e, f) w
      | inr f ↦ rw (e, f) (inserted (Option-cases (get child s.processes)) f)
    ]
  ]
    where
      inserted :
          ((get child s.processes ≡ none) ⊎ ((b : ℕ) × (get child s.processes ≡ some b)))
          → (tgid == 1) ≡ false
          → Keeps ((process_insert child tgid 0 >> pure tt) s)
      inserted (inl absent) f =
          Ends-bind (λ r s'. (r ≡ some s.next) × IsChild a child tgid s s') (λ _ s'. IsWell s')
            (process_insert child tgid 0 s) _ (process_insert-IsChild s a child tgid w known absent)
            (λ r s' (_, i). i.well)
      inserted (inr (b, there)) f =
          Ends-bind (λ _ s'. IsWell s') (λ _ s'. IsWell s') (process_insert child tgid 0 s) _
            (process_insert-known w b child there tgid f) (λ r s' w'. w')

  exec-Keeps : NotInit s tgid → Keeps (handle cb (Event.exec tgid) s)
  unfolding handle process_get act_found
  exec-Keeps ne = rw (process_get, known) (act-Keeps cb on_exec a w alive (ne a known))

  session-Keeps : NotInit s tgid → Keeps (handle cb (Event.new_session tgid) s)
  unfolding handle act_inserted
  session-Keeps ne =
      Ends-bind _ (λ _ s'. IsWell s') (process_insert tgid 0 tgid s) _
        (process_insert-session w a tgid known)
        (λ r s' (is, w', live, table, init, _).
          rw is
            (act-Keeps cb on_setsid a w' (ap (λ f. f a) live ∙ alive) (λ e. ne a known (e ∙ init))))

  exit-Keeps :
      (code signal : ℕ)
      → AsExpected s (Event.exit tgid code signal)
      → Keeps (handle cb (Event.exit tgid code signal) s)
  unfolding handle
  exit-Keeps code signal (ne, once) = elim (Bool-cases (signal == sigchld)) [
    | inr e ↦ rw e w
    | inl e ↦ rw e (
        Ends-bind (λ r s'. (r ≡ true) × IsReadied a code s s') (λ _ s'. IsWell s')
          (process_exit tgid code s) _
          (process_exit-IsReadied s tgid a code w known (ne a known) (once a known))
          (λ r s' (_, i). i.well))
  ]

handle-Keeps :
    (cb : Callback) {s : Procs} (ev : Event) (tgid a : ℕ)
    → IsWell s
    → AsExpected s ev
    → actor ev ≡ some tgid
    → get tgid s.processes ≡ some a
    → Keeps (handle cb ev s)
unfolding handle actor
handle-Keeps cb Event.ack tgid a w ok is known = w
handle-Keeps cb (Event.fork p tid child) tgid a w ok is known =
    fork-Keeps cb w p a (ground (arith, is, known)) tid child
handle-Keeps cb (Event.exec p) tgid a w ok is known =
    exec-Keeps cb w p a (ground (arith, is, known)) ok
handle-Keeps cb (Event.credentials p) tgid a w ok is known = w
handle-Keeps cb (Event.new_session p) tgid a w ok is known =
    session-Keeps cb w p a (ground (arith, is, known)) ok
handle-Keeps cb (Event.name_change p) tgid a w ok is known = w
handle-Keeps cb (Event.core_dump p) tgid a w ok is known = w
handle-Keeps cb (Event.exit p code signal) tgid a w ok is known =
    exit-Keeps cb w p a (ground (arith, is, known)) code signal ok
handle-Keeps cb (Event.unhandled what p) tgid a w ok is known = w

handle_known-Keeps :
    (cb : Callback) {s : Procs} (ev : Event) (tgid : ℕ)
    → IsWell s
    → AsExpected s ev
    → actor ev ≡ some tgid
    → Ends (λ r s'. (r ≡ true) × IsWell s') (handle_known cb ev tgid s)
unfolding handle_known process_get
handle_known-Keeps cb {s} ev tgid w ok is = elim (Option-cases (get tgid s.processes)) [
  | inl e ↦ rw (process_get, e) (refl, errno-IsWell esrch w)
  | inr (a, e) ↦
      rw (process_get, e)
        (Ends-bind (λ _ s'. IsWell s') (λ r s'. (r ≡ true) × IsWell s') (handle cb ev s) _
          (handle-Keeps cb ev tgid a w ok is e) (λ r s' w'. (refl, w')))
]

-- Whatever event comes in that is as expected of the kernel, and whatever the callback answers, the
-- event is taken in without a fault, and a well-formed table is well-formed afterwards.
pub procwatch_ingest-IsWell :
    (cb : Callback) (s : Procs) (ev : Event)
    → IsWell s
    → AsExpected s ev
    → Ends (λ r s'. (r ≡ true) × IsWell s') (procwatch_ingest cb (some ev) s)
unfolding procwatch_ingest
procwatch_ingest-IsWell cb s ev w ok = elim (Option-cases (actor ev)) [
  | inl e ↦ rw (procwatch_ingest, e) (refl, w)
  | inr (tgid, e) ↦ rw (procwatch_ingest, e) (handle_known-Keeps cb ev tgid w ok e)
]
