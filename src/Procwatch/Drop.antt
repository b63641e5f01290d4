-- ===== src/Procwatch/Drop.antt =====
-- What process_drop of src/common/procwatch.c promises: which structs are freed, and which are left.
pub mod Round
pub mod Recursion
use sysvkit.Base.{
  ℕ, zero, suc, ◌+◌, ◌≤◌, ◌<◌, ◌≡◌, ◌≢◌, ◌↔◌, inl, inr, refl, sym, ap, ◌∙◌, subst, Bool, true,
  false, none, some, List, [], ◌∷◌, length, ◌==◌, ==_iff, if◌then◌else◌, Bool-cases, arith,
}
use sysvkit.Procwatch.Store.{
  Process, Procs, Run, done, failed, Ends, M, and_then, ◌>>=◌, ◌>>◌, update, load, store, free, has,
  remove, get, pop,
}
use sysvkit.Procwatch.Lists.{has-remove, has-remove_self, remove_absent, remove-Nodup}
use sysvkit.Procwatch.Operations.{
  process_get, pop_child, pop_table, remove_ready, process_destroy, process_unparent, drop_children,
  release, process_drop_recursive, process_drop,
}
use sysvkit.Procwatch.Shape.{IsWell, Orphan, stored, released, stored-IsWell, released-IsWell}
use sysvkit.Procwatch.Links.{Ends-bind, Ends-mono}
use sysvkit.Procwatch.Links.Reparent.{
  popped, pop_child-some, popped-IsWell, popped-live, popped_after, popped-Orphan, popped-Relinked,
  children_zero, children_suc,
}
use sysvkit.Procwatch.Links.Unparent.{Unlinked, process_unparent-Unlinked}

-- A process, its children, their children and so on.
pub data Descendant (s : Procs) (a : ℕ) : ℕ → Type 0 where
  self : Descendant s a a
  further : {b c : ℕ} → Descendant s a b → has c (s.at b).children ≡ true → Descendant s a c

-- What freeing descendants of a process changes: who is left is unchanged, with a process its
-- children go, and only descendants go.
pub record Freed (a : ℕ) (s s' : Procs) : Type 0 where
  pub well : IsWell s'
  pub init_same : s'.proc_init ≡ s.proc_init
  pub next_same : s'.next ≡ s.next
  pub no_new : (b : ℕ) → s'.live b ≡ true → s.live b ≡ true
  pub kept : (b : ℕ) → s'.live b ≡ true → (b == a) ≡ false → s'.at b ≡ s.at b
  pub before : (b : ℕ) → b < a → s'.live b ≡ s.live b
  pub children_gone : (c : ℕ) → has c (s.at a).children ≡ true → s'.live c ≡ false
  pub closed :
      (b c : ℕ)
      → (b == a) ≡ false
      → s.live b ≡ true
      → s'.live b ≡ false
      → has c (s.at b).children ≡ true
      → s'.live c ≡ false
  pub only : (b : ℕ) → s.live b ≡ true → s'.live b ≡ false → Descendant s a b

-- Behind the loop over the children the process itself is left, with no parent.
pub record Emptied (a : ℕ) (s s' : Procs) : Type 0 where
  pub freed : Freed a s s'
  pub left : s'.live a ≡ true
  pub orphan : Orphan s' a

pub record Dropped (a : ℕ) (s s' : Procs) : Type 0 where
  pub freed : Freed a s s'
  pub gone : s'.live a ≡ false

-- What the recursion promises of a depth.
abbrev pub Drops : ℕ → (ℕ → M (Unit {0})) → Type 0
Drops depth drop =
    (s : Procs) (c : ℕ)
    → IsWell s
    → s.live c ≡ true
    → Orphan s c
    → c ≢ s.proc_init
    → s.next ≤ c + depth
    → Ends (λ _ s'. Dropped c s s') (drop c s)

-- Descent from a live process in a state in which some structs are freed and the others' lists are no
-- longer than before.
pub Descendant-earlier :
    {s t : Procs} (a : ℕ)
    → IsWell t
    → ((b : ℕ) (c : ℕ)
        → t.live b ≡ true
        → has c (t.at b).children ≡ true
        → has c (s.at b).children ≡ true)
    → t.live a ≡ true
    → (b : ℕ) → Descendant t a b
    → (t.live b ≡ true) × Descendant s a b
Descendant-earlier a w fewer alive b self = (alive, self)
Descendant-earlier a w fewer alive c (further {b} d h) =
    let (lb, db) = Descendant-earlier a w fewer alive b d in
    ((w.child b c lb h).0, further db (fewer b c lb h))

pub Descendant-trans :
    {s : Procs} {a b c : ℕ} → Descendant s a b → Descendant s b c → Descendant s a c
Descendant-trans d self = d
Descendant-trans d (further e h) = further (Descendant-trans d e) h
