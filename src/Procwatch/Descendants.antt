-- ===== src/Procwatch/Descendants.antt =====
-- process_drop of src/common/procwatch.c as a whole: the table behind it.
use sysvkit.Base.{
  ℕ, ◌≤◌, ◌≡◌, ◌≢◌, ◌↔◌, refl, sym, ap, ◌∙◌, subst, true, false, some, ◌==◌, ==_iff, Bool-cases,
  inl, inr, arith,
}
use sysvkit.Procwatch.Store.{Procs, Ends, has, get}
use sysvkit.Procwatch.Operations.{
  process_get, process_unparent, process_drop_recursive, process_drop,
}
use sysvkit.Procwatch.Shape.{IsWell}
use sysvkit.Procwatch.Links.{Ends-bind}
use sysvkit.Procwatch.Links.Unparent.{Unlinked, process_unparent-Unlinked}
use sysvkit.Procwatch.Drop.{Descendant, self, further, Dropped}
use sysvkit.Procwatch.Drop.Recursion.{process_drop_recursive-Drops}

-- Descent from a live process leads to live processes that were made later, and depends on no others.
Descendant-later :
    {s t : Procs} (a : ℕ)
    → IsWell s
    → s.live a ≡ true
    → ((b : ℕ) → a ≤ b → t.at b ≡ s.at b)
    → (b : ℕ) → Descendant s a b
    → (s.live b ≡ true) × (a ≤ b) × Descendant t a b
Descendant-later a w alive same b self = (alive, omega arith, self)
Descendant-later a w alive same c (further {b} d h) =
    let (lb, le, db) = Descendant-later a w alive same b d in
    let (lc, _, lt) = w.child b c lb h in
    (lc, omega (arith, le, lt), further db (ap (λ p. has c p.children) (same b le) ∙ h))

Descendant-dead :
    {s s' : Procs} (a : ℕ)
    → IsWell s
    → s.live a ≡ true
    → Dropped a s s'
    → (b : ℕ) → Descendant s a b
    → (s.live b ≡ true) × (s'.live b ≡ false)
Descendant-dead a w alive d b self = (alive, d.gone)
Descendant-dead {s} a w alive d c (further {b} e h) =
    let (lb, db) = Descendant-dead a w alive d b e in
    (
      (w.child b c lb h).0,
      elim (Bool-cases (b == a)) [
        | inl x ↦
            d.freed.children_gone c
              (subst (λ y. has c (s.at y).children ≡ true) ((==_iff b a).0 x) h)
        | inr x ↦ d.freed.closed b c x lb db h
      ],
    )

-- A process is removed from the table with its descendants, and nothing else is.
abbrev pub OnlyWithout : ℕ → Procs → Procs → Type 0
OnlyWithout a s s' =
    (pid b : ℕ)
    → (get pid s'.processes ≡ some b) ↔ ((get pid s.processes ≡ some b) × ¬ Descendant s a b)

still_live : {s s1 : Procs} (a : ℕ) → s.live a ≡ true → Unlinked a s s1 → s1.live a ≡ true
still_live a alive u = ap (λ f. f a) u.relinked.live_same ∙ alive

module _ {s s1 s' : Procs} (w : IsWell s) (a : ℕ) (alive : s.live a ≡ true) (u : Unlinked a s s1)
    (d : Dropped a s1 s') where
  left_pid : (b : ℕ) → s'.live b ≡ true → (s'.at b).pid ≡ (s.at b).pid
  left_pid b h = ap (λ p. p.pid) (d.freed.kept b h (ground (arith, d.gone))) ∙ u.relinked.pid_same b

  left_before : (b : ℕ) → s'.live b ≡ true → s.live b ≡ true
  left_before b h = ap (λ f. f b) (sym u.relinked.live_same) ∙ d.freed.no_new b h

  dropped_only : OnlyWithout a s s'
  dropped_only pid b = (
    λ h.
        let (lb, is_pid) = d.freed.well.in_table pid b h in
        (
          ap (λ p. get p s.processes) (sym is_pid ∙ left_pid b lb) ∙ w.listed b (left_before b lb),
          λ e.
              let (_, _, e1) = Descendant-later a w alive (λ c le. u.kept c le) b e in
              cc (lb, (Descendant-dead a u.relinked.well (still_live a alive u) d b e1).1),
        ),
    λ (h, no_descendant).
        let (lb, is_pid) = w.in_table pid b h in
        elim (Bool-cases (s'.live b)) [
          | inl x ↦
              ap (λ p. get p s'.processes) (sym is_pid ∙ sym (left_pid b x))
              ∙ d.freed.well.listed b x
          | inr x ↦ absurd (
              no_descendant
                (Descendant-later a u.relinked.well (still_live a alive u)
                  (λ c le. sym (u.kept c le)) b
                  (d.freed.only b (ap (λ f. f b) u.relinked.live_same ∙ lb) x)).2)
        ],
  )

-- In a well-formed table, dropping the process of an id that is in it and is not init's ends with
-- success and without a fault; the table is well-formed then, and is the one before without the
-- process and its descendants.
pub process_drop-OnlyWithout :
    (s : Procs) (pid a : ℕ)
    → IsWell s
    → get pid s.processes ≡ some a
    → a ≢ s.proc_init
    → Ends (λ r s'. (r ≡ true) × IsWell s' × OnlyWithout a s s') (process_drop pid s)
unfolding process_drop process_get
process_drop-OnlyWithout s pid a w found ne =
    let alive = (w.in_table pid a found).0 in
    rw (process_get, found)
      (Ends-bind (λ _ s1. Unlinked a s s1) (λ r s'. (r ≡ true) × IsWell s' × OnlyWithout a s s')
        (process_unparent a s) _ (process_unparent-Unlinked w a alive)
        (λ v s1 u.
          Ends-bind (λ _ s'. Dropped a s1 s') (λ r s'. (r ≡ true) × IsWell s' × OnlyWithout a s s')
            (process_drop_recursive s1.next a s1) _
            (process_drop_recursive-Drops s1.next s1 a u.relinked.well (still_live a alive u)
              u.orphan (λ e. ne (e ∙ u.relinked.init_same)) (omega arith))
            (λ v s' d. (refl, d.freed.well, dropped_only w a alive u d))))
