-- ===== src/Procwatch/Exits.antt =====
-- process_exit and process_collect of src/common/procwatch.c: the way of a terminated process from
-- its exit event to the monitor.
use sysvkit.Base.{
  ℕ, ◌≡◌, ◌≢◌, refl, sym, ap, ◌∙◌, subst, true, false, Option, none, some, List, [], ◌∷◌, ◌++◌,
  length, ◌==◌, if◌then◌else◌, Bool-cases, inl, inr, arith, eagain,
}
use sysvkit.Procwatch.Store.{Process, Procs, done, Ends, update, load, store, free, has, get, pop}
use sysvkit.Procwatch.Lists.{Nodup, get-pop}
use sysvkit.Procwatch.Operations.{
  process_get, process_unparent, process_reparent_children, process_exit, process_destroy,
  pop_table, collect_ready, process_collect,
}
use sysvkit.Procwatch.Events.{collect_process}
use sysvkit.Procwatch.Shape.{IsWell, stored, stored-IsWell, released-IsWell, readied-IsWell}
use sysvkit.Procwatch.Links.{Ends-bind, Ends-mono, Relinked}
use sysvkit.Procwatch.Links.Reparent.{process_reparent_children-Relinked}
use sysvkit.Procwatch.Links.Unparent.{Unlinked, process_unparent-Unlinked}

-- A process is last of those that are ready, with its exit code, and the table is as it was.
pub record IsReadied (a code : ℕ) (s s' : Procs) : Type 0 where
  pub well : IsWell s'
  pub readied : s'.ready ≡ s.ready ++ (a ∷ [])
  pub code_kept : (s'.at a).wstatus ≡ some code
  pub table_same : s'.processes ≡ s.processes

-- In a well-formed table, the exit of a process that is in it, is not init's and is not ready yet
-- ends without a fault: the process is then the last of those that are ready and has its exit code.
pub process_exit-IsReadied :
    (s : Procs) (pid a code : ℕ)
    → IsWell s
    → get pid s.processes ≡ some a
    → a ≢ s.proc_init
    → has a s.ready ≡ false
    → Ends (λ r s'. (r ≡ true) × IsReadied a code s s') (process_exit pid code s)
unfolding process_exit process_get load store
process_exit-IsReadied s pid a code w found ne new =
    let alive = (w.in_table pid a found).0 in
    let p = record (s.at a) { wstatus = some code } in
    let w1 = stored-IsWell w a p alive refl (λ c h. h) (w.distinct a alive) (inl refl) in
    rw (process_get, found, load, alive, store, alive)
      (Ends-bind (λ _ s'. Relinked (stored a p s) s') (λ r s'. (r ≡ true) × IsReadied a code s s')
        (process_reparent_children a (stored a p s)) _
        (process_reparent_children-Relinked w1 a alive ne)
        (λ v s' r. (
          refl,
          record {
            well =
                readied-IsWell r.well a (ap (λ f. f a) r.live_same ∙ alive)
                  (λ e. ne (e ∙ r.init_same)) (ap (has a) r.ready_same ∙ new);
            readied = ap (λ l. l ++ (a ∷ [])) r.ready_same;
            code_kept = r.wstatus_same a ∙ ground arith;
            table_same = r.table_same;
          },
        )))

-- The first of those that are ready goes.
module _ {s : Procs} (w : IsWell s) (a : ℕ) (rest : List ℕ) (first : s.ready ≡ a ∷ rest) where
  parts : (has a rest ≡ false) × Nodup rest
  parts = subst Nodup first w.once

  in_ready : (b : ℕ) → has b rest ≡ true → has b s.ready ≡ true
  unfolding has
  in_ready b h = rw first (ground arith)

  is_ready : has a s.ready ≡ true
  unfolding has
  is_ready = rw first (ground arith)

  first_live : s.live a ≡ true
  first_live = w.waiting a is_ready

  not_init : a ≢ s.proc_init
  not_init e = cc (subst (λ x. has x s.ready ≡ true) e is_ready, w.init_spared)

  abbrev others_ready : Procs
  others_ready = record s { ready = rest }

  others_ready-IsWell : IsWell others_ready
  others_ready-IsWell = record {
    in_table = w.in_table;
    listed = w.listed;
    child = w.child;
    distinct = w.distinct;
    below = w.below;
    waiting = λ b h. w.waiting b (in_ready b h);
    once = parts.1;
    init_live = w.init_live;
    init_pid = w.init_pid;
    init_spared = elim (Bool-cases (has s.proc_init rest)) [
      | inl e ↦ cc (in_ready s.proc_init e, w.init_spared)
      | inr e ↦ e
    ];
    lowest = w.lowest;
  }

-- A process is collected: it is off the table and the list, and all else on them is as before.
pub record IsCollected (a : ℕ) (rest : List ℕ) (s s' : Procs) : Type 0 where
  pub well : IsWell s'
  pub ready_left : s'.ready ≡ rest
  pub table_left :
      (pid : ℕ) → get pid s'.processes ≡ (if (s.at a).pid == pid then none else get pid s.processes)

process_collect-ready :
    (s : Procs) (a : ℕ) (rest : List ℕ)
    → (length s.processes == 2) ≡ false
    → s.ready ≡ a ∷ rest
    → process_collect s ≡ collect_ready a (record s { ready = rest })
unfolding process_collect
process_collect-ready s a rest more first = rw (process_collect, more, first) refl

-- A process that is still to be freed: its links are cut, and its id is off the table.
abbrev IsTaken : Process → ℕ → Procs → Option ℕ → Procs → Type 0
IsTaken p a s r s' =
    (r ≡ some a)
    × (s1 : Procs) × Unlinked a s s1
    × (s' ≡ record s1 { processes = pop p.pid s1.processes })

collect_ready-IsTaken :
    {s : Procs} (w : IsWell s) (a : ℕ)
    → s.live a ≡ true
    → Ends (IsTaken (s.at a) a s) (collect_ready a s)
unfolding collect_ready pop_table load
collect_ready-IsTaken {s} w a alive =
    rw (collect_ready, load, alive)
      (Ends-bind (λ _ s1. Unlinked a s s1) (IsTaken (s.at a) a s) (process_unparent a s) _
        (process_unparent-Unlinked w a alive) (λ v s1 u. (refl, s1, u, refl)))

pub process_collect-eagain :
    (s : Procs)
    → (length s.processes == 2) ≡ false
    → s.ready ≡ []
    → process_collect s ≡ done none (record s { errno = eagain })
unfolding process_collect
process_collect-eagain s more none_ready = ground arith

pub process_collect-some :
    (s : Procs) (a : ℕ) (rest : List ℕ)
    → IsWell s
    → (length s.processes == 2) ≡ false
    → s.ready ≡ a ∷ rest
    → Ends (λ r _. r ≡ some a) (process_collect s)
process_collect-some s a rest w more first =
    subst (Ends (λ r _. r ≡ some a)) (sym (process_collect-ready s a rest more first)) (
      Ends-mono (IsTaken (s.at a) a (others_ready w a rest first)) (λ r _. r ≡ some a)
        (collect_ready a (others_ready w a rest first))
        (collect_ready-IsTaken (others_ready-IsWell w a rest first) a (first_live w a rest first))
        (λ r s' t. t.0))

-- What is left when it is freed.
collected :
    {s : Procs} (w : IsWell s) (a : ℕ) (rest : List ℕ) (first : s.ready ≡ a ∷ rest) (s1 : Procs)
    → Unlinked a (others_ready w a rest first) s1
    → s1.live a ≡ true
    → IsCollected a rest s
        (record s1 { live = update s1.live a false; processes = pop (s.at a).pid s1.processes })
collected {s} w a rest first s1 u left = record {
  well =
      subst
        (λ x. IsWell (record s1 { live = update s1.live a false; processes = pop x s1.processes }))
        (u.relinked.pid_same a)
        (released-IsWell u.relinked.well a s1.ready left
          (λ e. not_init w a rest first (e ∙ u.relinked.init_same)) u.orphan (λ b h. h)
          (ap (has a) u.relinked.ready_same ∙ (parts w a rest first).0) u.relinked.well.once);
  ready_left = u.relinked.ready_same;
  table_left = λ pid.
      get-pop (s.at a).pid pid s1.processes
      ∙ ap (λ t. if (s.at a).pid == pid then none else get pid t) u.relinked.table_same;
}

-- In a well-formed table that holds more than init and the monitor, or neither, the first of the
-- processes that are ready is collected without a fault, with its id and its exit code, and the
-- struct is freed.
pub collect_process-IsCollected :
    (s : Procs) (a : ℕ) (rest : List ℕ)
    → IsWell s
    → (length s.processes == 2) ≡ false
    → s.ready ≡ a ∷ rest
    → Ends
        (λ r s'.
          (p : Process) × (r ≡ some p)
          × (p.pid ≡ (s.at a).pid)
          × (p.wstatus ≡ (s.at a).wstatus)
          × IsCollected a rest s s')
        (collect_process s)
unfolding collect_process process_destroy load free
collect_process-IsCollected s a rest w more first =
    let w0 = others_ready-IsWell w a rest first in
    let alive = first_live w a rest first in
    Ends-bind (IsTaken (s.at a) a (others_ready w a rest first)) _ (process_collect s) _
      (subst (Ends (IsTaken (s.at a) a (others_ready w a rest first)))
        (sym (process_collect-ready s a rest more first)) (collect_ready-IsTaken w0 a alive))
      (λ r s' (is, s1, u, after).
        let left = ap (λ f. f a) u.relinked.live_same ∙ alive in
        rw (is, after, load, left, free, left)
          (
            s1.at a,
            refl,
            u.relinked.pid_same a,
            u.relinked.wstatus_same a,
            collected w a rest first s1 u left,
          ))
