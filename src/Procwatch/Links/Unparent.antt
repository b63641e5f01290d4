-- ===== src/Procwatch/Links/Unparent.antt =====
-- process_unparent of src/common/procwatch.c: the link that it changes, with no fault.
use sysvkit.Base.{
  ℕ, ◌≤◌, ◌≡◌, inl, inr, refl, ap, ◌∙◌, true, false, none, some, Bool-cases, Option-cases, arith,
  esrch,
}
use sysvkit.Procwatch.Store.{Procs, Ends, load, store, has, remove, get}
use sysvkit.Procwatch.Lists.{has-remove, has-remove_self, remove-Nodup}
use sysvkit.Procwatch.Operations.{process_get, remove_child, process_unparent}
use sysvkit.Procwatch.Shape.{IsWell, Orphan, stored-IsWell, stored-Orphan}
use sysvkit.Procwatch.Links.{Relinked, Relinked-refl, stored-Relinked, errno-IsWell}

-- A process that nobody has as a child any more; it and what was made after it are as before.
pub record Unlinked (a : ℕ) (s s' : Procs) : Type 0 where
  pub relinked : Relinked s s'
  pub orphan : Orphan s' a
  pub kept : (b : ℕ) → a ≤ b → s'.at b ≡ s.at b

module _ {s : Procs} (w : IsWell s) (a : ℕ) (alive : s.live a ≡ true) where
  -- Whoever has a process as a child is found by its parent's id.
  parent_found :
      (d : ℕ)
      → s.live d ≡ true
      → has a (s.at d).children ≡ true
      → get (s.at a).ppid s.processes ≡ some d
  parent_found d h e = ap (λ p. get p s.processes) (w.child d a h e).1 ∙ w.listed d h

  no_parent : get (s.at a).ppid s.processes ≡ none → Orphan s a
  no_parent absent d h = elim (Bool-cases (has a (s.at d).children)) [
    | inl e ↦ cc (parent_found d h e)
    | inr e ↦ e
  ]

  not_other :
      (b : ℕ)
      → get (s.at a).ppid s.processes ≡ some b
      → (d : ℕ) → s.live d ≡ true
      → (b ≡ d → has a (s.at d).children ≡ false)
      → has a (s.at d).children ≡ false
  not_other b found d h same = elim (Bool-cases (has a (s.at d).children)) [
    | inl e ↦ same (ground (arith, parent_found d h e))
    | inr e ↦ e
  ]

  remove_child-Unlinked :
      (b : ℕ)
      → get (s.at a).ppid s.processes ≡ some b
      → Ends (λ _ s'. Unlinked a s s') (remove_child b a s)
  unfolding remove_child load store
  remove_child-Unlinked b found = elim (Bool-cases (has a (s.at b).children)) [
    | inr e ↦
        rw (remove_child, load, b_live, e)
          (record {
            relinked = Relinked-refl w;
            orphan = λ d h. not_other b found d h (λ x. rw (← x) e);
            kept = λ d h. refl;
          })
    | inl e ↦
        rw (remove_child, load, b_live, e, store, b_live)
          (record {
            relinked =
                stored-Relinked b (record (s.at b) { children = remove a (s.at b).children })
                  (stored-IsWell w b (record (s.at b) { children = remove a (s.at b).children })
                    b_live refl (λ c h. has-remove a c (s.at b).children h)
                    (remove-Nodup a (s.at b).children (w.distinct b b_live)) (inl refl))
                  refl refl;
            orphan =
                stored-Orphan w b (record (s.at b) { children = remove a (s.at b).children }) b_live
                  a (λ d h ne. not_other b found d h (λ x. absurd (ground arith)))
                  (has-remove_self a (s.at b).children (w.distinct b b_live));
            kept = λ d h. ground (arith, w.child b a b_live e);
          })
  ]
    where
      b_live : s.live b ≡ true
      b_live = (w.in_table (s.at a).ppid b found).0

  pub process_unparent-Unlinked : Ends (λ _ s'. Unlinked a s s') (process_unparent a s)
  unfolding process_unparent load process_get
  process_unparent-Unlinked = elim (Option-cases (get (s.at a).ppid s.processes)) [
    | inl e ↦
        rw (process_unparent, load, alive, process_get, e)
          (record {
            relinked = record {
              well = errno-IsWell esrch w;
              live_same = refl;
              next_same = refl;
              table_same = refl;
              ready_same = refl;
              init_same = refl;
              self_same = refl;
              pid_same = λ b. refl;
              wstatus_same = λ b. refl;
            };
            orphan = no_parent e;
            kept = λ b h. refl;
          })
    | inr (b, e) ↦ rw (process_unparent, load, alive, process_get, e) (remove_child-Unlinked b e)
  ]
