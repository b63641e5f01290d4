-- ===== src/Procwatch/Links.antt =====
-- Runs that end, and changes of the table of src/common/procwatch.c that leave all but its links.
pub mod Reparent
pub mod Unparent
use sysvkit.Base.{
  ℕ, zero, suc, ◌≤◌, ◌<◌, ◌≡◌, ◌≢◌, ◌⊎◌, inl, inr, refl, sym, ap, ◌∙◌, subst, Bool, true, false,
  Option, none, some, List, [], ◌∷◌, ◌++◌, length, ◌==◌, ==_iff, if◌then◌else◌, Bool-cases,
  Option-cases, arith, esrch,
}
use sysvkit.Procwatch.Store.{
  Process, Procs, Run, done, failed, Ends, M, and_then, update, load, store, has, remove, get,
}
use sysvkit.Procwatch.Lists.{Nodup, has-remove, has-remove_self, has-remove_other, remove-Nodup}
use sysvkit.Procwatch.Operations.{
  process_get, pop_child, append_child, adopt, reparent_loop, process_reparent_children,
  remove_child, process_unparent,
}
use sysvkit.Procwatch.Shape.{
  IsWell, Orphan, stored, same_pid, one_parent, stored-IsWell, stored-Orphan, append-IsWell,
}

pub List-cases : (xs : List ℕ) → (xs ≡ []) ⊎ ((c : ℕ) × (r : List ℕ) × (xs ≡ c ∷ r))
List-cases [] = inl refl
List-cases (c ∷ r) = inr (c, r, refl)

-- What follows a run that ends.
pub Ends-bind :
    {A B : Type 0} (P : A → Procs → Type 0) (Q : B → Procs → Type 0) (r : Run A) (k : A → M B)
    → Ends P r
    → ((a : A) (s : Procs) → P a s → Ends Q (k a s))
    → Ends Q (and_then r k)
Ends-bind P Q (done a s) k h next = next a s h
Ends-bind P Q (failed f) k h next = absurd h

pub Ends-mono :
    {A : Type 0} (P Q : A → Procs → Type 0) (r : Run A)
    → Ends P r
    → ((a : A) (s : Procs) → P a s → Q a s)
    → Ends Q r
Ends-mono P Q (done a s) h weaken = weaken a s h
Ends-mono P Q (failed f) h weaken = absurd h

-- Only links change: the structs, their ids and exit codes, the table and the list stay.
pub record Relinked (s s' : Procs) : Type 0 where
  pub well : IsWell s'
  pub live_same : s'.live ≡ s.live
  pub next_same : s'.next ≡ s.next
  pub table_same : s'.processes ≡ s.processes
  pub ready_same : s'.ready ≡ s.ready
  pub init_same : s'.proc_init ≡ s.proc_init
  pub self_same : s'.proc_self ≡ s.proc_self
  pub pid_same : (b : ℕ) → (s'.at b).pid ≡ (s.at b).pid
  pub wstatus_same : (b : ℕ) → (s'.at b).wstatus ≡ (s.at b).wstatus

pub Relinked-refl : {s : Procs} → IsWell s → Relinked s s
Relinked-refl w = record {
  well = w;
  live_same = refl;
  next_same = refl;
  table_same = refl;
  ready_same = refl;
  init_same = refl;
  self_same = refl;
  pid_same = λ b. refl;
  wstatus_same = λ b. refl;
}

pub Relinked-trans : {s t u : Procs} → Relinked s t → Relinked t u → Relinked s u
Relinked-trans r q = record {
  well = q.well;
  live_same = q.live_same ∙ r.live_same;
  next_same = q.next_same ∙ r.next_same;
  table_same = q.table_same ∙ r.table_same;
  ready_same = q.ready_same ∙ r.ready_same;
  init_same = q.init_same ∙ r.init_same;
  self_same = q.self_same ∙ r.self_same;
  pid_same = λ b. q.pid_same b ∙ r.pid_same b;
  wstatus_same = λ b. q.wstatus_same b ∙ r.wstatus_same b;
}

-- A store that changes neither id nor exit code.
pub stored-Relinked :
    {s : Procs} (a : ℕ) (p : Process)
    → IsWell (stored a p s)
    → p.pid ≡ (s.at a).pid
    → p.wstatus ≡ (s.at a).wstatus
    → Relinked s (stored a p s)
stored-Relinked {s} a p w pid wstatus = record {
  well = w;
  live_same = refl;
  next_same = refl;
  table_same = refl;
  ready_same = refl;
  init_same = refl;
  self_same = refl;
  pid_same = λ b. ground arith;
  wstatus_same = λ b. ground arith;
}

pub errno-IsWell : {s : Procs} (e : ℕ) → IsWell s → IsWell (record s { errno = e })
errno-IsWell e w = record {
  in_table = w.in_table;
  listed = w.listed;
  child = w.child;
  distinct = w.distinct;
  below = w.below;
  waiting = w.waiting;
  once = w.once;
  init_live = w.init_live;
  init_pid = w.init_pid;
  init_spared = w.init_spared;
  lowest = w.lowest;
}
