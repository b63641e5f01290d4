-- ===== src/Procwatch/Sessions.antt =====
-- What becomes of a process that starts a session, by the callback of src/sysvrun/monitor.c.
use sysvkit.Base.{
  ℕ, ◌≡◌, ◌≢◌, ap, ◌∙◌, subst, Bool, true, false, ◌&&◌, none, some, ◌==◌, if◌then◌else◌,
  Option-cases, inl, inr, arith,
}
use sysvkit.Procwatch.Store.{Process, Procs, Ends, load, get}
use sysvkit.Procwatch.Operations.{process_get, process_insert, process_drop}
use sysvkit.Procwatch.Events.{
  Event, Callback, default, drop, on_setsid, monitor_proc_event, callback, take_action, act,
  act_inserted, handle, handle_known, actor, procwatch_ingest,
}
use sysvkit.Procwatch.Shape.{IsWell}
use sysvkit.Procwatch.Links.{Ends-bind}
use sysvkit.Procwatch.Drop.{Descendant, self}
use sysvkit.Procwatch.Descendants.{OnlyWithout, process_drop-OnlyWithout}
use sysvkit.Procwatch.Inserts.{process_insert-session}

-- The callback of a monitor.
abbrev pub monitor_callback : Bool → ℕ → ℕ → Callback
monitor_callback forks own sid = some (λ ev p. (monitor_proc_event forks own sid ev p).0)

-- Whether a process that starts a session stays on the table.
abbrev pub stays : Bool → ℕ → ℕ → Bool
stays forks own sid = forks && sid == own

setsid_action :
    (forks : Bool) (own sid : ℕ) (p : Process)
    → callback (monitor_callback forks own sid) on_setsid p
      ≡ (if stays forks own sid then default else drop)
unfolding callback monitor_proc_event
setsid_action forks own sid p = ground arith

dropped_self :
    (s s' : Procs) (tgid a : ℕ)
    → get tgid s.processes ≡ some a
    → OnlyWithout a s s'
    → get tgid s'.processes ≡ none
dropped_self s s' tgid a known only = elim (Option-cases (get tgid s'.processes)) [
  | inl e ↦ e
  | inr (b, e) ↦
      let (there, no_descendant) = (only tgid b).0 e in
      absurd (no_descendant (subst (Descendant s a) (ground (arith, known, there)) self))
]

take_action-table :
    (b : Bool) (s : Procs) (tgid a : ℕ)
    → IsWell s
    → get tgid s.processes ≡ some a
    → a ≢ s.proc_init
    → Ends
        (λ _ s'. get tgid s'.processes ≡ (if b then some a else none))
        (take_action tgid (if b then default else drop) s)
unfolding take_action
take_action-table true s tgid a w known ne = known
take_action-table false s tgid a w known ne =
    Ends-bind (λ r s'. (r ≡ true) × IsWell s' × OnlyWithout a s s')
      (λ _ s'. get tgid s'.processes ≡ none) (process_drop tgid s) _
      (process_drop-OnlyWithout s tgid a w known ne)
      (λ r s' (_, _, only). dropped_self s s' tgid a known only)

-- In a well-formed table, a process of the table other than init that starts a session is on the
-- table afterwards exactly if the service is of Type=forking and the monitor keeps the session of its
-- own process still.
pub procwatch_ingest-new_session :
    (s : Procs) (forks : Bool) (own sid tgid a : ℕ)
    → IsWell s
    → get tgid s.processes ≡ some a
    → a ≢ s.proc_init
    → Ends
        (λ r s'. get tgid s'.processes ≡ (if stays forks own sid then some a else none))
        (procwatch_ingest (monitor_callback forks own sid) (some (Event.new_session tgid)) s)
unfolding procwatch_ingest actor handle_known process_get handle act_inserted act load take_action
procwatch_ingest-new_session s forks own sid tgid a w known ne =
    rw (process_get, known)
      (Ends-bind (λ _ s'. get tgid s'.processes ≡ (if stays forks own sid then some a else none)) _
        (handle (monitor_callback forks own sid) (Event.new_session tgid) s) _
        (Ends-bind _ _ (process_insert tgid 0 tgid s) _ (process_insert-session w a tgid known)
          (λ r s1 (is, w1, live, table, init, pid).
            let alive1 = ap (λ f. f a) live ∙ (w.in_table tgid a known).0 in
            rw (is, load, alive1)
              (rw (setsid_action forks own sid (s1.at a), pid)
                (take_action-table (stays forks own sid) s1 tgid a w1 (ap (get tgid) table ∙ known)
                  (λ e. ne (e ∙ init))))))
        (λ _ s' h. h))
