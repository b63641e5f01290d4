-- ===== src/Procwatch/Drop/Recursion.antt =====
-- process_drop_recursive of src/common/procwatch.c: the loop over the children and the recursion.
use sysvkit.Base.{
  ℕ, zero, suc, ◌+◌, ◌≤◌, ◌<◌, ◌≡◌, ◌≢◌, inl, inr, refl, sym, ap, ◌∙◌, subst, true, false, List, [],
  ◌∷◌, length, ◌==◌, ==_iff, Bool-cases, arith,
}
use sysvkit.Procwatch.Store.{Procs, done, Ends, M, load, store, free, has, remove}
use sysvkit.Procwatch.Lists.{has-remove, has-remove_self, remove_absent, remove-Nodup}
use sysvkit.Procwatch.Operations.{drop_children, release, process_drop_recursive}
use sysvkit.Procwatch.Shape.{IsWell, Orphan, stored, released, stored-IsWell, released-IsWell}
use sysvkit.Procwatch.Links.{Ends-bind, Ends-mono}
use sysvkit.Procwatch.Links.Reparent.{
  popped, pop_child-some, popped-IsWell, popped-live, popped_after, popped-Orphan, children_zero,
  children_suc,
}
use sysvkit.Procwatch.Drop.{Descendant, self, Emptied, Dropped, Drops, Descendant-earlier}
use sysvkit.Procwatch.Drop.Round.{after, fewer, left_alive, rest_left, round-Emptied}

empty_of_length : (xs : List ℕ) → length xs ≡ 0 → xs ≡ []
empty_of_length [] h = refl
empty_of_length (x ∷ xs) h = absurd (omega arith)

Emptied-none :
    {s : Procs} (a : ℕ)
    → IsWell s
    → s.live a ≡ true
    → Orphan s a
    → (s.at a).children ≡ []
    → Emptied a s s
unfolding has
Emptied-none a w alive orphan empty = record {
  freed = record {
    well = w;
    init_same = refl;
    next_same = refl;
    no_new = λ b h. h;
    kept = λ b h ne. refl;
    before = λ b lt. refl;
    children_gone = λ c h. ground (arith, empty);
    closed = λ b c ne lb db. cc;
    only = λ b lb db. cc;
  };
  left = alive;
  orphan = orphan;
}

-- A process has no parent behind the drop of one of its children, if it had none.
module _ {s s2 : Procs} (w : IsWell s) (a c : ℕ) (rest : List ℕ) (alive : s.live a ≡ true)
    (first : (s.at a).children ≡ c ∷ rest) (d : Dropped c (popped w a c rest) s2)
    (orphan : Orphan s a) where
  parent-Orphan : Orphan (popped w a c rest) a
  parent-Orphan b h = elim (Bool-cases (has a ((popped w a c rest).at b).children)) [
    | inl e ↦ cc (fewer w a c rest alive first d b a e, orphan b h)
    | inr e ↦ e
  ]

  still-Orphan : Orphan s2 a
  still-Orphan b h = elim (Bool-cases (has a (s2.at b).children)) [
    | inr e ↦ e
    | inl e ↦
        let lt = (d.freed.well.child b a h e).2 in
        let lt' : b < c = omega (arith, lt, after w a c rest alive first d) in
        let same = d.freed.kept b h (ground (arith, lt')) in
        cc (parent-Orphan b (d.freed.no_new b h), ap (λ p. has a p.children) same)
  ]

-- The loop over the children, if what it calls drops a child with all its descendants.
drop_children-Emptied :
    (depth : ℕ) (drop : ℕ → M (Unit {0}))
    → Drops depth drop
    → (n : ℕ) {s : Procs} (w : IsWell s) (a : ℕ) → s.live a ≡ true
    → Orphan s a
    → s.next ≤ suc (a + depth)
    → length (s.at a).children ≡ n
    → Ends (λ _ s'. Emptied a s s') (drop_children drop n a s)
unfolding drop_children
drop_children-Emptied depth drop drops zero {s} w a alive orphan deep len =
    rw (children_zero {s = s} a alive len)
      (Emptied-none a w alive orphan (empty_of_length (s.at a).children len))
drop_children-Emptied depth drop drops (suc n) {s} w a alive orphan deep len =
    let (c, rest, first, len') = children_suc n (s.at a).children len in
    let lt = popped_after w a c rest alive first in
    rw (pop_child-some w a c rest alive first) (
      Ends-bind (λ _ s2. Dropped c (popped w a c rest) s2) (λ _ s'. Emptied a s s')
        (drop c (popped w a c rest)) (λ _. drop_children drop n a)
        (drops (popped w a c rest) c (popped-IsWell w a c rest alive first)
          (popped-live w a c rest alive first) (popped-Orphan w a c rest alive first)
          (λ e. omega (arith, lt, w.lowest a alive, e)) (omega (arith, lt, deep)))
        (λ u s2 d.
          Ends-mono (λ _ s'. Emptied a s2 s') (λ _ s'. Emptied a s s') (drop_children drop n a s2)
            (drop_children-Emptied depth drop drops n d.freed.well a
              (left_alive w a c rest alive first d) (still-Orphan w a c rest alive first d orphan)
              (omega (arith, d.freed.next_same, deep))
              (ap length (rest_left w a c rest alive first d) ∙ len'))
            (λ v s3 e. round-Emptied w a c rest alive first d e)))

release-released :
    (s : Procs) (a : ℕ) → s.live a ≡ true → release a s ≡ done tt (released a (remove a s.ready) s)
unfolding release load free
release-released s a alive = ground (arith, remove_absent a s.ready)

-- The process that is dropped has no parent any more.
abbrev nameless : ℕ → Procs → Procs
nameless a s = stored a (record (s.at a) { ppid = 0 }) s

module _ {s : Procs} (w : IsWell s) (a : ℕ) (alive : s.live a ≡ true) (orphan : Orphan s a) where
  nameless-IsWell : IsWell (nameless a s)
  nameless-IsWell =
      stored-IsWell w a (record (s.at a) { ppid = 0 }) alive refl (λ c h. h) (w.distinct a alive)
        (inr orphan)

  nameless-Orphan : Orphan (nameless a s) a
  nameless-Orphan b h = ground (arith, orphan b)

  nameless-children : (b : ℕ) → ((nameless a s).at b).children ≡ (s.at b).children
  nameless-children b = ground arith

  -- What is done behind the loop: the process itself goes.
  module _ {s3 : Procs} (ne : a ≢ s.proc_init) (e : Emptied a (nameless a s) s3) where
    gone_last : Procs
    gone_last = released a (remove a s3.ready) s3

    dead : (b : ℕ) → s3.live b ≡ false → gone_last.live b ≡ false
    unfolding gone_last
    dead b h = ground arith

    released-Dropped : Dropped a s gone_last
    unfolding gone_last
    released-Dropped = record {
      freed = record {
        well =
            released-IsWell e.freed.well a (remove a s3.ready) e.left
              (λ x. ne (x ∙ e.freed.init_same)) e.orphan (λ b. has-remove a b s3.ready)
              (has-remove_self a s3.ready e.freed.well.once)
              (remove-Nodup a s3.ready e.freed.well.once);
        init_same = e.freed.init_same;
        next_same = e.freed.next_same;
        no_new = λ b h. e.freed.no_new b (ground arith);
        kept = λ b h nb. e.freed.kept b (ground arith) nb ∙ ground arith;
        before = λ b lt. ground (arith, e.freed.before b lt);
        children_gone =
            λ c h. dead c (e.freed.children_gone c (ap (has c) (nameless-children a) ∙ h));
        closed = λ b c nb lb db hc.
            dead c
              (e.freed.closed b c nb lb (ground arith) (ap (has c) (nameless-children b) ∙ hc));
        only = λ b lb db. elim (Bool-cases (a == b)) [
          | inl x ↦ subst (Descendant s a) ((==_iff a b).0 x) self
          | inr x ↦
              (Descendant-earlier a nameless-IsWell
                (λ b c _ h. sym (ap (has c) (nameless-children b)) ∙ h) alive b
                (e.freed.only b lb (ground arith))).1
        ];
      };
      gone = ground arith;
    }

-- With fuel for the structs that were made later, a process is dropped with all its descendants.
pub process_drop_recursive-Drops : (depth : ℕ) → Drops depth (process_drop_recursive depth)
unfolding process_drop_recursive load store
process_drop_recursive-Drops zero s c w alive orphan ne deep =
    absurd (omega (arith, w.below c alive))
process_drop_recursive-Drops (suc depth) s c w alive orphan ne deep =
    rw (load, alive, store, alive)
      (Ends-bind (λ _ s3. Emptied c (nameless c s) s3) (λ _ s'. Dropped c s s')
        (drop_children (process_drop_recursive depth) (length (s.at c).children) c (nameless c s))
        (λ _. release c)
        (drop_children-Emptied depth (process_drop_recursive depth)
          (process_drop_recursive-Drops depth) (length (s.at c).children)
          (nameless-IsWell w c alive orphan) c alive (nameless-Orphan w c alive orphan)
          (omega (arith, deep)) (ap length (nameless-children w c alive orphan c)))
        (λ u s3 e.
          rw (release-released s3 c e.left)
            (unfold gone_last in released-Dropped w c alive orphan ne e)))
