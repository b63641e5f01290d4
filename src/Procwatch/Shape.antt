-- ===== src/Procwatch/Shape.antt =====
-- The shape of the process table that its operations rely on, and how changes of the memory keep it.
use sysvkit.Base.{
  ℕ, suc, ◌≤◌, ◌<◌, ◌≡◌, ◌≢◌, ◌⊎◌, inl, inr, sym, ◌∙◌, true, false, none, some, List, [], ◌∷◌, ◌++◌,
  ◌==◌, Bool-cases, arith,
}
use sysvkit.Procwatch.Store.{Process, Procs, update, has, get, put, pop}
use sysvkit.Procwatch.Lists.{Nodup, has-append, has-singleton, append-Nodup, get-put, get-pop}

-- The table holds the live structs, by their ids; a child is live, was made after its parent and
-- names it; no pointer stands twice; what is ready is live; init is the first of the live structs
-- and never ready.
pub record IsWell (s : Procs) : Type 0 where
  pub in_table : (p a : ℕ) → get p s.processes ≡ some a → (s.live a ≡ true) × ((s.at a).pid ≡ p)
  pub listed : (a : ℕ) → s.live a ≡ true → get (s.at a).pid s.processes ≡ some a
  pub child :
      (a c : ℕ)
      → s.live a ≡ true
      → has c (s.at a).children ≡ true
      → (s.live c ≡ true) × ((s.at c).ppid ≡ (s.at a).pid) × (a < c)
  pub distinct : (a : ℕ) → s.live a ≡ true → Nodup (s.at a).children
  pub below : (a : ℕ) → s.live a ≡ true → a < s.next
  pub waiting : (a : ℕ) → has a s.ready ≡ true → s.live a ≡ true
  pub once : Nodup s.ready
  pub init_live : s.live s.proc_init ≡ true
  pub init_pid : (s.at s.proc_init).pid ≡ 1
  pub init_spared : has s.proc_init s.ready ≡ false
  pub lowest : (a : ℕ) → s.live a ≡ true → s.proc_init ≤ a

-- No process has it as a child.
abbrev pub Orphan : Procs → ℕ → Type 0
Orphan s a = (b : ℕ) → s.live b ≡ true → has a (s.at b).children ≡ false

-- The states of the single changes.
abbrev pub stored : ℕ → Process → Procs → Procs
stored a p s = record s { at = update s.at a p }

abbrev pub made : Process → Procs → Procs
made p s = record s {
  next = suc s.next;
  live = update s.live s.next true;
  at = update s.at s.next p;
  processes = put p.pid s.next s.processes;
}

abbrev pub released : ℕ → List ℕ → Procs → Procs
released a ready s = record s {
  live = update s.live a false;
  processes = pop (s.at a).pid s.processes;
  ready = ready;
}

-- A live struct's id leads to it alone.
pub same_pid :
    {s : Procs}
    → IsWell s
    → (a b : ℕ) → s.live a ≡ true
    → s.live b ≡ true
    → (s.at a).pid ≡ (s.at b).pid
    → a ≡ b
same_pid w a b ha hb e = ground (arith, w.listed a, w.listed b)

-- A child has one parent.
pub one_parent :
    {s : Procs}
    → IsWell s
    → (a b c : ℕ) → s.live a ≡ true
    → s.live b ≡ true
    → has c (s.at a).children ≡ true
    → has c (s.at b).children ≡ true
    → a ≡ b
one_parent w a b c ha hb hca hcb =
    same_pid w a b ha hb (sym (w.child a c ha hca).1 ∙ (w.child b c hb hcb).1)

module _ {s : Procs} (w : IsWell s) (a : ℕ) (p : Process) (alive : s.live a ≡ true) where
  -- A struct keeps its id, loses children perhaps, and changes its parent only if it is an orphan.
  pub stored-IsWell :
      p.pid ≡ (s.at a).pid
      → ((c : ℕ) → has c p.children ≡ true → has c (s.at a).children ≡ true)
      → Nodup p.children
      → ((p.ppid ≡ (s.at a).ppid) ⊎ Orphan s a)
      → IsWell (stored a p s)
  stored-IsWell pid fewer nodup parent = record {
    in_table = λ q b h. ground (arith, w.in_table q b);
    listed = λ b h. ground (arith, w.listed b);
    child = λ b c h hc. elim parent [
      | inl e ↦ ground (arith, fewer c, w.child b c)
      | inr o ↦ ground (arith, fewer c, w.child b c, o b)
    ];
    distinct =
        λ b h. elim (Bool-cases (a == b)) [ inl e ↦ rw e nodup | inr e ↦ rw e (w.distinct b h) ];
    below = w.below;
    waiting = w.waiting;
    once = w.once;
    init_live = w.init_live;
    init_pid = ground (arith, w.init_pid);
    init_spared = w.init_spared;
    lowest = w.lowest;
  }

  -- Another's child list is as before.
  pub stored-Orphan :
      (c : ℕ)
      → ((b : ℕ) → s.live b ≡ true → (a == b) ≡ false → has c (s.at b).children ≡ false)
      → has c p.children ≡ false
      → Orphan (stored a p s) c
  stored-Orphan c others here b h = ground (arith, others b h)

module _ {s : Procs} (w : IsWell s) where
  -- An orphan becomes the last child of a process that it names as its parent.
  pub append-IsWell :
      (b c : ℕ)
      → s.live b ≡ true
      → s.live c ≡ true
      → b < c
      → (s.at c).ppid ≡ (s.at b).pid
      → Orphan s c
      → IsWell (stored b (record (s.at b) { children = (s.at b).children ++ (c ∷ []) }) s)
  append-IsWell b c hb hc lt named orphan = record {
    in_table = λ q d h. ground (arith, w.in_table q d);
    listed = λ d h. ground (arith, w.listed d);
    child = λ d e h he.
        ground (arith, w.child d e, has-append e (s.at b).children (c ∷ []), has-singleton e c);
    distinct = λ d h. elim (Bool-cases (b == d)) [
      | inl e ↦ rw e (append-Nodup (s.at b).children c (w.distinct b hb) (orphan b hb))
      | inr e ↦ rw e (w.distinct d h)
    ];
    below = w.below;
    waiting = w.waiting;
    once = w.once;
    init_live = w.init_live;
    init_pid = ground (arith, w.init_pid);
    init_spared = w.init_spared;
    lowest = w.lowest;
  }

  -- A struct is made for an id that the table does not hold.
  pub made-IsWell :
      (p : Process) → get p.pid s.processes ≡ none → p.children ≡ [] → IsWell (made p s)
  unfolding has
  made-IsWell p absent empty = record {
    in_table =
        λ q a h. ground (arith, w.in_table q a, get-put p.pid q s.next s.processes, w.below a);
    listed = λ a h. ground (
      arith,
      w.listed a,
      get-put p.pid (s.at a).pid s.next s.processes,
      get-put p.pid p.pid s.next s.processes,
      w.below a,
    );
    child = λ a c h hc. ground (arith, w.child a c, w.below a, w.below c);
    distinct = λ a h. elim (Bool-cases (s.next == a)) [
      | inl e ↦ rw (e, empty) tt
      | inr e ↦ rw e (w.distinct a (ground arith))
    ];
    below = λ a h. ground (arith, w.below a);
    waiting = λ a h. ground (arith, w.waiting a);
    once = w.once;
    init_live = ground (arith, w.init_live);
    init_pid = ground (arith, w.init_pid, w.below s.proc_init, w.init_live);
    init_spared = w.init_spared;
    lowest = λ a h. ground (arith, w.lowest a, w.below s.proc_init, w.init_live);
  }

  -- Nobody has the new struct as a child.
  pub made-Orphan : (p : Process) → p.children ≡ [] → Orphan (made p s) s.next
  unfolding has
  made-Orphan p empty b h = elim (Bool-cases (has s.next ((made p s).at b).children)) [
    | inr e ↦ e
    | inl e ↦ ground (arith, w.child b s.next, w.below s.next)
  ]

  -- An orphan other than init leaves the table and the list, and is freed.
  pub released-IsWell :
      (a : ℕ) (ready : List ℕ)
      → s.live a ≡ true
      → a ≢ s.proc_init
      → Orphan s a
      → ((b : ℕ) → has b ready ≡ true → has b s.ready ≡ true)
      → has a ready ≡ false
      → Nodup ready
      → IsWell (released a ready s)
  released-IsWell a ready alive ne orphan fewer gone nodup = record {
    in_table =
        λ q b h. ground (arith, w.in_table q b, w.listed a, get-pop (s.at a).pid q s.processes);
    listed = λ b h.
        ground (arith, w.listed b, w.listed a, get-pop (s.at a).pid (s.at b).pid s.processes);
    child = λ b c h hc. ground (arith, w.child b c, orphan b);
    distinct = λ b h. w.distinct b (ground arith);
    below = λ b h. w.below b (ground arith);
    waiting = λ b h. ground (arith, w.waiting b, fewer b);
    once = nodup;
    init_live = ground (arith, w.init_live);
    init_pid = w.init_pid;
    init_spared = ground (arith, fewer s.proc_init, w.init_spared);
    lowest = λ b h. w.lowest b (ground arith);
  }

  -- A live process other than init that is not ready becomes ready.
  pub readied-IsWell :
      (a : ℕ)
      → s.live a ≡ true
      → a ≢ s.proc_init
      → has a s.ready ≡ false
      → IsWell (record s { ready = s.ready ++ (a ∷ []) })
  readied-IsWell a alive ne new = record {
    in_table = w.in_table;
    listed = w.listed;
    child = w.child;
    distinct = w.distinct;
    below = w.below;
    waiting = λ b h. ground (arith, w.waiting b, has-append b s.ready (a ∷ []), has-singleton b a);
    once = append-Nodup s.ready a w.once new;
    init_live = w.init_live;
    init_pid = w.init_pid;
    init_spared = ground (
      arith,
      w.init_spared,
      has-append s.proc_init s.ready (a ∷ []),
      has-singleton s.proc_init a,
    );
    lowest = w.lowest;
  }
