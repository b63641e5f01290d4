-- ===== src/Procwatch/Inserts.antt =====
-- process_insert of src/common/procwatch.c, as the fork and the session events call it.
use sysvkit.Base.{
  ℕ, ◌≡◌, refl, true, false, none, some, [], ◌∷◌, ◌++◌, ◌==◌, if◌then◌else◌, ◌||◌, Bool-cases, inl,
  inr, arith, esrch, einval,
}
use sysvkit.Procwatch.Store.{Procs, done, Ends, load, store, allocate, get}
use sysvkit.Procwatch.Lists.{get-put}
use sysvkit.Procwatch.Operations.{
  process_get, change_parent, change_sid, process_update, new_process, put_table, append_child,
  insert_child, process_insert,
}
use sysvkit.Procwatch.Shape.{
  IsWell, stored, made, stored-IsWell, append-IsWell, made-IsWell, made-Orphan,
}
use sysvkit.Procwatch.Links.{errno-IsWell}

-- A new child: it is on the table, its parent's last child, and in its parent's session.
pub record IsChild (b pid ppid : ℕ) (s s' : Procs) : Type 0 where
  pub well : IsWell s'
  pub table_left :
      (q : ℕ) → get q s'.processes ≡ (if pid == q then some s.next else get q s.processes)
  pub new_child : s'.at s.next ≡ new_process pid ppid (s.at b).sid
  pub last_child : (s'.at b).children ≡ (s.at b).children ++ (s.next ∷ [])

module _ {s : Procs} (w : IsWell s) (b pid ppid : ℕ) (found : get ppid s.processes ≡ some b)
    (absent : get pid s.processes ≡ none) where
  parent_live : s.live b ≡ true
  parent_live = (w.in_table ppid b found).0

  unfoldable pub with_new : Procs
  with_new = made (new_process pid ppid (s.at b).sid) s

  with_new-IsWell : IsWell with_new
  unfolding with_new
  with_new-IsWell = made-IsWell w (new_process pid ppid (s.at b).sid) absent refl

  unfoldable pub with_child : Procs
  unfolding with_new
  with_child =
      stored b (record (with_new.at b) { children = (with_new.at b).children ++ (s.next ∷ []) })
        with_new

  insert_child-with_child : insert_child b pid ppid 0 s ≡ done (some s.next) with_child
  unfolding insert_child with_child with_new load store allocate append_child put_table
  insert_child-with_child = ground (arith, parent_live, w.below b)

  pub with_child-IsChild : IsChild b pid ppid s with_child
  unfolding with_child with_new
  with_child-IsChild = record {
    well =
        append-IsWell with_new-IsWell b s.next (ground (arith, parent_live)) (ground arith)
          (w.below b parent_live) (ground (arith, w.in_table ppid b found, w.below b))
          (made-Orphan w (new_process pid ppid (s.at b).sid) refl);
    table_left = λ q. get-put pid q s.next s.processes;
    new_child = ground (arith, w.below b, parent_live);
    last_child = ground (arith, w.below b, parent_live);
  }

-- What errno is makes no difference.
IsChild-errno :
    {s s' : Procs} {b pid ppid e : ℕ}
    → IsChild b pid ppid (record s { errno = e }) s'
    → IsChild b pid ppid s s'
IsChild-errno i = record {
  well = i.well;
  table_left = i.table_left;
  new_child = i.new_child;
  last_child = i.last_child;
}

-- In a well-formed table, a process that a process of the table starts under a new id becomes its
-- last child, in its session.
pub process_insert-IsChild :
    (s : Procs) (b pid ppid : ℕ)
    → IsWell s
    → get ppid s.processes ≡ some b
    → get pid s.processes ≡ none
    → Ends (λ r s'. (r ≡ some s.next) × IsChild b pid ppid s s') (process_insert pid ppid 0 s)
unfolding process_insert process_get
process_insert-IsChild s b pid ppid w found absent = elim (Bool-cases (ppid == pid)) [
  | inl e ↦ absurd (ground arith)
  | inr e ↦
      let w' = errno-IsWell esrch w in
      rw (process_get, absent, e, process_get, found)
        (rw (insert_child-with_child w' b pid ppid found absent)
          (refl, IsChild-errno (with_child-IsChild w' b pid ppid found absent)))
]

==_refl : (n : ℕ) → (n == n) ≡ true
==_refl n = ground arith

-- A process that is on the table is found, and stays a child of the same parent.
module _ {s : Procs} (w : IsWell s) (a pid : ℕ) (found : get pid s.processes ≡ some a) where
  known_live : s.live a ≡ true
  known_live = (w.in_table pid a found).0

  -- A start of the process that is known already changes nothing but errno.
  pub process_insert-known :
      (ppid : ℕ) → (ppid == 1) ≡ false → Ends (λ _ s'. IsWell s') (process_insert pid ppid 0 s)
  unfolding process_insert process_get process_update change_parent change_sid load
  process_insert-known ppid ne =
      rw (process_get, found, load, known_live)
        (elim (Bool-cases (ppid == 0 || ppid == (s.at a).ppid)) [
          | inl e ↦ rw (e, load, known_live) w
          | inr e ↦ rw (e, ne) (errno-IsWell einval w)
        ])

  -- A new session is noted with the process.
  pub process_insert-session :
      Ends
        (λ r s'.
          (r ≡ some a)
          × IsWell s'
          × (s'.live ≡ s.live)
          × (s'.processes ≡ s.processes)
          × (s'.proc_init ≡ s.proc_init)
          × ((s'.at a).pid ≡ pid))
        (process_insert pid 0 pid s)
  unfolding process_insert process_get process_update change_parent change_sid load store
  process_insert-session =
      rw (process_get, found, load, known_live, load, known_live)
        (elim (Bool-cases (pid == 0 || pid == (s.at a).sid)) [
          | inl e ↦ rw e (refl, w, refl, refl, refl, (w.in_table pid a found).1)
          | inr e ↦
              rw (e, ==_refl pid, store, known_live)
                (
                  refl,
                  stored-IsWell w a (record (s.at a) { sid = pid }) known_live refl (λ c h. h)
                      (w.distinct a known_live) (inl refl),
                  refl,
                  refl,
                  refl,
                  ground (arith, w.in_table pid a found),
                )
        ])
