-- ===== src/Procwatch/Drop/Round.antt =====
-- One round of the loop of process_drop_recursive in src/common/procwatch.c.
use sysvkit.Base.{
  ℕ, ◌<◌, ◌≡◌, inl, inr, ap, ◌∙◌, subst, true, false, List, ◌∷◌, ◌==◌, ==_iff, Bool-cases, arith,
}
use sysvkit.Procwatch.Store.{Procs, has}
use sysvkit.Procwatch.Shape.{IsWell}
use sysvkit.Procwatch.Links.Reparent.{popped, popped-IsWell, popped-live, popped_after}
use sysvkit.Procwatch.Drop.{
  Descendant, self, further, Emptied, Dropped, Descendant-earlier, Descendant-trans,
}

has-tail : (x c : ℕ) (rest : List ℕ) → has x rest ≡ true → has x (c ∷ rest) ≡ true
unfolding has
has-tail x c rest h = ground arith

has-cons_other :
    (x c : ℕ) (rest : List ℕ) → (c == x) ≡ false → has x (c ∷ rest) ≡ true → has x rest ≡ true
unfolding has
has-cons_other x c rest ne h = ground arith

-- One round of the loop: the first child is dropped, then the rest of the loop runs.
module _ {s s2 : Procs} (w : IsWell s) (a c : ℕ) (rest : List ℕ) (alive : s.live a ≡ true)
    (first : (s.at a).children ≡ c ∷ rest) (d : Dropped c (popped w a c rest) s2) where
  pub after : a < c
  after = popped_after w a c rest alive first

  pub fewer :
      (b x : ℕ) → has x ((popped w a c rest).at b).children ≡ true → has x (s.at b).children ≡ true
  unfolding has
  fewer b x h = elim (Bool-cases (a == b)) [
    | inl y ↦ rw (← (==_iff a b).0 y) (rw first (ground arith))
    | inr y ↦ ground arith
  ]

  pub left_alive : s2.live a ≡ true
  left_alive = d.freed.before a after ∙ alive

  pub kept_round : (b : ℕ) → (b == a) ≡ false → s2.live b ≡ true → s2.at b ≡ s.at b
  kept_round b ne h = d.freed.kept b h (ground (arith, d.gone)) ∙ ground arith

  pub rest_left : (s2.at a).children ≡ rest
  rest_left =
      ap (λ p. p.children) (d.freed.kept a left_alive (ground (arith, after))) ∙ ground arith

  fewer_round :
      (b x : ℕ)
      → s2.live b ≡ true
      → has x (s2.at b).children ≡ true
      → has x (s.at b).children ≡ true
  unfolding has
  fewer_round b x l h = elim (Bool-cases (b == a)) [
    | inl y ↦
        rw ((==_iff b a).0 y, first)
          (has-tail x c rest (rw (← rest_left) (rw (← (==_iff b a).0 y) h)))
    | inr y ↦ rw (← kept_round b y l) h
  ]

  module _ {s3 : Procs} (e : Emptied a s2 s3) where
    dead_stays : (x : ℕ) → s2.live x ≡ false → s3.live x ≡ false
    dead_stays x h = elim (Bool-cases (s3.live x)) [ inl y ↦ cc (e.freed.no_new x y) | inr y ↦ y ]

    children_round : (x : ℕ) → has x (s.at a).children ≡ true → s3.live x ≡ false
    unfolding has
    children_round x h = elim (Bool-cases (c == x)) [
      | inl y ↦ dead_stays x (rw (← (==_iff c x).0 y) d.gone)
      | inr y ↦
          e.freed.children_gone x
            (rw rest_left (has-cons_other x c rest y (subst (λ l. has x l ≡ true) first h)))
    ]

    closed_round :
        (b x : ℕ)
        → (b == a) ≡ false
        → s.live b ≡ true
        → s3.live b ≡ false
        → has x (s.at b).children ≡ true
        → s3.live x ≡ false
    closed_round b x ne lb db hx = elim (Bool-cases (s2.live b)) [
      | inl l ↦ e.freed.closed b x ne l db (rw (kept_round b ne l) hx)
      | inr l ↦ dead_stays x (elim (Bool-cases (b == c)) [
        | inl y ↦ d.freed.children_gone x (rw (← (==_iff b c).0 y) (ground arith))
        | inr y ↦ d.freed.closed b x y lb l (ground arith)
      ])
    ]

    only_round : (b : ℕ) → s.live b ≡ true → s3.live b ≡ false → Descendant s a b
    unfolding has
    only_round b lb db = elim (Bool-cases (s2.live b)) [
      | inl l ↦ (Descendant-earlier a d.freed.well fewer_round left_alive b (e.freed.only b l db)).1
      | inr l ↦
          Descendant-trans (further self (rw first (ground arith)))
            (Descendant-earlier c (popped-IsWell w a c rest alive first) (λ b x _. fewer b x)
              (popped-live w a c rest alive first) b (d.freed.only b lb l)).1
    ]

    pub round-Emptied : Emptied a s s3
    round-Emptied = record {
      freed = record {
        well = e.freed.well;
        init_same = e.freed.init_same ∙ d.freed.init_same;
        next_same = e.freed.next_same ∙ d.freed.next_same;
        no_new = λ b h. d.freed.no_new b (e.freed.no_new b h);
        kept = λ b h ne. e.freed.kept b h ne ∙ kept_round b ne (e.freed.no_new b h);
        before = λ b lt. e.freed.before b lt ∙ d.freed.before b (omega (arith, after, lt));
        children_gone = children_round;
        closed = closed_round;
        only = only_round;
      };
      left = e.left;
      orphan = e.orphan;
    }
