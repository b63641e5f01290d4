-- ===== src/Procwatch/Drain.antt =====
-- processes_fini and processes_init of src/common/procwatch.c, and when no descendant is left.
use sysvkit.Base.{
  ℕ, suc, ◌≡◌, ◌≢◌, ◌⊎◌, refl, subst, true, false, none, some, List, [], ◌∷◌, length, ◌==◌, ==_iff,
  Bool-cases, inl, inr, arith, esrch, echild,
}
use sysvkit.Procwatch.Store.{Procs, done, Ends, update, has, get, pop}
use sysvkit.Procwatch.Operations.{new_process, process_collect}
use sysvkit.Procwatch.Shape.{IsWell, made, made-IsWell}
use sysvkit.Procwatch.Links.{List-cases}
use sysvkit.Procwatch.Exits.{process_collect-eagain, process_collect-some}

-- The loop needs no more of the table than that it holds the live structs.
record Holds (s : Procs) : Type 0 where
  in_table : (p a : ℕ) → get p s.processes ≡ some a → (s.live a ≡ true) × ((s.at a).pid ≡ p)
  listed : (a : ℕ) → s.live a ≡ true → get (s.at a).pid s.processes ≡ some a

abbrev freed_first : ℕ → ℕ → Procs → Procs
freed_first p a s = record s { processes = pop p s.processes; live = update s.live a false }

-- The table with init alone.
module _ (s : Procs) (none_live : (a : ℕ) → s.live a ≡ false) where
  abbrev init_alone : Procs
  init_alone = record s {
    next = suc s.next;
    live = update s.live s.next true;
    at = update s.at s.next (new_process 1 1 1);
    processes = (1, s.next) ∷ [];
    ready = [];
    proc_init = s.next;
    errno = esrch;
  }

  init_alone-IsWell : IsWell init_alone
  unfolding get has
  init_alone-IsWell = record {
    in_table = λ p a h. ground arith;
    listed = λ a h. ground (arith, none_live a);
    child = λ a c h hc. ground (arith, none_live a);
    distinct = λ a h. elim (Bool-cases (s.next == a)) [
      | inl e ↦ rw e tt
      | inr e ↦ absurd (ground (arith, none_live a))
    ];
    below = λ a h. ground (arith, none_live a);
    waiting = λ a h. cc;
    once = tt;
    init_live = ground arith;
    init_pid = ground arith;
    init_spared = refl;
    lowest = λ a h. ground (arith, none_live a);
  }

  unfoldable pub with_self : ℕ → ℕ → Procs
  with_self pid sid = record (made (new_process pid pid sid) init_alone) { proc_self = suc s.next }

  pub with_self-IsWell : (pid sid : ℕ) → pid ≢ 1 → IsWell (with_self pid sid)
  unfolding with_self get
  with_self-IsWell pid sid ne =
      let w = made-IsWell init_alone-IsWell (new_process pid pid sid) (ground arith) refl in
      record {
        in_table = w.in_table;
        listed = w.listed;
        child = w.child;
        distinct = w.distinct;
        below = w.below;
        waiting = w.waiting;
        once = w.once;
        init_live = w.init_live;
        init_pid = w.init_pid;
        init_spared = w.init_spared;
        lowest = w.lowest;
      }

two_elements :
    (t : List (ℕ × ℕ)) (self i j q a : ℕ)
    → length t ≡ 2
    → get 1 t ≡ some i
    → get self t ≡ some j
    → self ≢ 1
    → get q t ≡ some a
    → (q ≡ 1) ⊎ (q ≡ self)
unfolding get
two_elements [] self i j q a len hi hj ne h = absurd (omega arith)
two_elements (e ∷ []) self i j q a len hi hj ne h = absurd (omega arith)
two_elements ((p, x) ∷ (r, y) ∷ []) self i j q a len hi hj ne h = ground arith
two_elements (e ∷ f ∷ g ∷ t) self i j q a len hi hj ne h = absurd (omega arith)

-- In a well-formed table that has init and the monitor under different ids, process_collect reports
-- ECHILD only if no other process is in the table.
pub process_collect-echild :
    (s : Procs) (self i j : ℕ)
    → IsWell s
    → get 1 s.processes ≡ some i
    → get self s.processes ≡ some j
    → self ≢ 1
    → (s' : Procs) → process_collect s ≡ done none s'
    → s'.errno ≡ echild
    → (q a : ℕ) → get q s.processes ≡ some a
    → (q ≡ 1) ⊎ (q ≡ self)
unfolding process_collect
process_collect-echild s self i j w hi hj ne s' r is q a h =
    elim (Bool-cases (length s.processes == 2)) [
      | inl e ↦ two_elements s.processes self i j q a ((==_iff _ 2).0 e) hi hj ne h
      | inr e ↦ elim (List-cases s.ready) [
        | inl none_ready ↦ cc (process_collect-eagain s e none_ready, r, is)
        | inr (b, rest, first) ↦
            cc (subst (Ends (λ x _. x ≡ some b)) r (process_collect-some s b rest w e first))
      ]
    ]
