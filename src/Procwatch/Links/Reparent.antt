-- ===== src/Procwatch/Links/Reparent.antt =====
-- process_reparent_children of src/common/procwatch.c: the links that it changes, with no fault.
use sysvkit.Base.{
  ℕ, zero, suc, ◌<◌, ◌≡◌, ◌≢◌, inl, inr, refl, ap, ◌∙◌, subst, true, false, none, some, List, [],
  ◌∷◌, ◌++◌, length, Bool-cases, arith,
}
use sysvkit.Procwatch.Store.{Procs, done, Ends, load, has}
use sysvkit.Procwatch.Lists.{Nodup}
use sysvkit.Procwatch.Operations.{pop_child, adopt, reparent_loop, process_reparent_children}
use sysvkit.Procwatch.Shape.{
  IsWell, Orphan, stored, one_parent, stored-IsWell, stored-Orphan, append-IsWell,
}
use sysvkit.Procwatch.Links.{
  Ends-bind, Ends-mono, Relinked, Relinked-refl, Relinked-trans, stored-Relinked, List-cases,
}

module _ {s : Procs} (w : IsWell s) (a c : ℕ) (rest : List ℕ) where
  abbrev pub popped : Procs
  popped = stored a (record (s.at a) { children = rest }) s

  module _ (alive : s.live a ≡ true) (first : (s.at a).children ≡ c ∷ rest) where
    pub pop_child-some : pop_child a s ≡ done (some c) popped
    unfolding pop_child
    pop_child-some = ground arith

    is_child : has c (s.at a).children ≡ true
    unfolding has
    is_child = rw first (ground arith)

    rest-Nodup : (has c rest ≡ false) × Nodup rest
    rest-Nodup = subst Nodup first (w.distinct a alive)

    pub popped-IsWell : IsWell popped
    unfolding has
    popped-IsWell =
        stored-IsWell w a (record (s.at a) { children = rest }) alive refl
          (λ d h. rw first (ground arith)) rest-Nodup.1 (inl refl)

    pub popped-live : s.live c ≡ true
    popped-live = (w.child a c alive is_child).0

    pub popped_after : a < c
    popped_after = (w.child a c alive is_child).2

    pub popped-Orphan : Orphan popped c
    popped-Orphan =
        stored-Orphan w a (record (s.at a) { children = rest }) alive c
          (λ b h other. elim (Bool-cases (has c (s.at b).children)) [
            | inl e ↦ ground (arith, one_parent w a b c alive h is_child e)
            | inr e ↦ e
          ])
          rest-Nodup.0

    pub popped-Relinked : Relinked s popped
    popped-Relinked =
        stored-Relinked a (record (s.at a) { children = rest }) popped-IsWell refl refl

-- An orphan other than init becomes init's last child.
module _ {s : Procs} (w : IsWell s) (c : ℕ) where
  renamed : Procs
  renamed = stored c (record (s.at c) { ppid = 1 }) s

  module _ (alive : s.live c ≡ true) (ne : c ≢ s.proc_init) (orphan : Orphan s c) where
    renamed-IsWell : IsWell renamed
    unfolding renamed
    renamed-IsWell =
        stored-IsWell w c (record (s.at c) { ppid = 1 }) alive refl (λ d h. h) (w.distinct c alive)
          (inr orphan)

    renamed-Orphan : Orphan renamed c
    unfolding renamed
    renamed-Orphan b h = ground (arith, orphan b)

    adopted : Procs
    adopted =
        stored s.proc_init
          (record (renamed.at s.proc_init) {
            children = (renamed.at s.proc_init).children ++ (c ∷ []);
          })
          renamed

    adopt-adopted : adopt c s ≡ done tt adopted
    unfolding adopt adopted renamed
    adopt-adopted = ground (arith, w.init_live)

    -- Only the links of the process and of init change.
    pub adopt-Relinked :
        Ends
          (λ _ s'. Relinked s s' × ((b : ℕ) → b ≢ c → b ≢ s.proc_init → s'.at b ≡ s.at b))
          (adopt c s)
    unfolding adopted renamed
    adopt-Relinked = rw adopt-adopted (
      Relinked-trans (stored-Relinked c (record (s.at c) { ppid = 1 }) renamed-IsWell refl refl) (
          stored-Relinked s.proc_init _
            (append-IsWell renamed-IsWell s.proc_init c w.init_live alive
              (omega (arith, w.lowest c alive)) (ground (arith, w.init_pid)) renamed-Orphan)
            refl refl),
      λ b nc ni. ground arith,
    )

-- The children of a live process, when a number of them is known.
pub children_zero :
    {s : Procs} (a : ℕ)
    → s.live a ≡ true
    → length (s.at a).children ≡ 0
    → pop_child a s ≡ done none s
unfolding pop_child
children_zero {s} a alive len = elim (List-cases (s.at a).children) [
  | inl e ↦ ground (arith, e)
  | inr (c, rest, e) ↦ absurd (omega (arith, ap length e))
]

pub children_suc :
    (n : ℕ) (xs : List ℕ)
    → length xs ≡ suc n
    → (c : ℕ) × (r : List ℕ) × (xs ≡ c ∷ r) × (length r ≡ n)
children_suc n [] len = absurd (omega arith)
children_suc n (c ∷ r) len = (c, r, refl, omega arith)

-- All children of a process other than init go over to init.
reparent_loop-Relinked :
    (n : ℕ) {s : Procs} (w : IsWell s) (a : ℕ)
    → s.live a ≡ true
    → a ≢ s.proc_init
    → length (s.at a).children ≡ n
    → Ends (λ _ s'. Relinked s s') (reparent_loop n a s)
unfolding reparent_loop
reparent_loop-Relinked zero {s} w a alive ne len =
    rw (children_zero {s = s} a alive len) (Relinked-refl w)
reparent_loop-Relinked (suc n) {s} w a alive ne len =
    let (c, rest, first, len') = children_suc n (s.at a).children len in
    let w1 = popped-IsWell w a c rest alive first in
    let after = popped_after w a c rest alive first in
    let r1 = popped-Relinked w a c rest alive first in
    rw (pop_child-some w a c rest alive first) (
      Ends-bind
        (λ _ s'.
          Relinked (popped w a c rest) s'
          × ((b : ℕ) → b ≢ c → b ≢ s.proc_init → s'.at b ≡ (popped w a c rest).at b))
        (λ _ s'. Relinked s s') (adopt c (popped w a c rest)) (λ _. reparent_loop n a)
        (adopt-Relinked w1 c (popped-live w a c rest alive first)
          (λ e. omega (arith, w.lowest a alive)) (popped-Orphan w a c rest alive first))
        (λ u s2 (r2, same).
          Ends-mono (λ _ s'. Relinked s2 s') (λ _ s'. Relinked s s') (reparent_loop n a s2)
            (reparent_loop-Relinked n r2.well a (ap (λ f. f a) r2.live_same ∙ alive)
              (λ e. ne (e ∙ r2.init_same))
              (ap (λ p. length p.children) (same a (λ e. omega (arith, after)) ne)
                ∙ ground (arith, len')))
            (λ v s3 r3. Relinked-trans r1 (Relinked-trans r2 r3))))

-- process_reparent_children works for every process but init.
pub process_reparent_children-Relinked :
    {s : Procs} (w : IsWell s) (a : ℕ)
    → s.live a ≡ true
    → a ≢ s.proc_init
    → Ends (λ _ s'. Relinked s s') (process_reparent_children a s)
unfolding process_reparent_children load
process_reparent_children-Relinked {s} w a alive ne =
    rw (load, alive) (reparent_loop-Relinked (length (s.at a).children) w a alive ne refl)
