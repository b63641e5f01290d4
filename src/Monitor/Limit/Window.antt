-- ===== src/Monitor/Limit/Window.antt =====
-- The ring as a sliding window over the last start times, the oldest first.
use sysvkit.Base.{
  ℕ, zero, suc, ◌+◌, ◌-◌, ◌%◌, ◌^◌, ◌≤◌, ◌<◌, ◌≡◌, refl, ap, ◌∙◌, sym, ◌↔◌, Bool, true, false,
  Option, none, some, List, [], ◌∷◌, ◌++◌, append_assoc, length, length-set, take, drop, replicate,
  set, get_or, ltb, ltb→lt, arith, ◌⊎◌, inl, inr, Bool-cases,
}
use sysvkit.Monitor.Limit.{Limiter, limit_init, capped, start_time_delta, limit_restart, limit_run}
use sysvkit.Monitor.Limit.Ring.{drop_at, rotate}

-- The ring is as long as the burst, and the cursor stands in it.
pub record IsRing (l : Limiter) : Type 0 where
  pub sized : length l.start_times ≡ l.start_limit_burst
  pub inside : l.start_time_cursor < l.start_limit_burst

unfoldable pub window : Limiter → List ℕ
window l = drop l.start_time_cursor l.start_times ++ take l.start_time_cursor l.start_times

-- `later` holds the elements of a list from some place on: each is at least `interval` after the
-- element that stands that many places before it, in 64-bit arithmetic.
abbrev pub Lag : ℕ → List ℕ → List ℕ → Type 0
Lag interval [] later = Unit
Lag interval (t ∷ ts) [] = Unit
Lag interval (t ∷ ts) (u ∷ us) = (interval ≤ (u + 2 ^ 64 - t) % 2 ^ 64) × Lag interval ts us

window_front :
    (l : Limiter)
    → IsRing l
    → (rest : List ℕ) × (window l ≡ get_or l.start_times l.start_time_cursor 0 ∷ rest)
      × (rest
          ≡ drop (suc l.start_time_cursor) l.start_times ++ take l.start_time_cursor l.start_times)
unfolding window
window_front l r = (
  drop (suc l.start_time_cursor) l.start_times ++ take l.start_time_cursor l.start_times,
  rw (drop_at l.start_times l.start_time_cursor (omega (arith, r.sized, r.inside))),
  refl,
)

-- The limiter that an allowed restart leaves.
abbrev recorded : Limiter → ℕ → Limiter
recorded l next = record l {
  start_times = set l.start_times l.start_time_cursor next;
  start_time_cursor = (l.start_time_cursor + 1) % l.start_limit_burst;
}

recorded-IsRing : (l : Limiter) (next : ℕ) → IsRing l → IsRing (recorded l next)
recorded-IsRing l next r = record {
  sized = length-set l.start_times l.start_time_cursor next ∙ r.sized;
  inside = grind (arith, r.inside);
}

window-recorded :
    (l : Limiter) (next : ℕ) (o : ℕ) (rest : List ℕ)
    → IsRing l
    → window l ≡ o ∷ rest
    → window (recorded l next) ≡ rest ++ next ∷ []
window-recorded l next o rest r e =
    let (rest', front, same) = window_front l r in
    let tails : rest' ≡ rest = ap tail_of (sym front ∙ e) in
    go (rotate l.start_times l.start_time_cursor next (omega (arith, r.sized, r.inside)))
    ∙ sym (
        append_assoc (drop (suc l.start_time_cursor) l.start_times)
          (take l.start_time_cursor l.start_times) (next ∷ []))
    ∙ ap (λ x. x ++ next ∷ []) (sym same ∙ tails)
  where
    tail_of : List ℕ → List ℕ
    tail_of [] = []
    tail_of (x ∷ xs) = xs

    go :
        drop
              ((l.start_time_cursor + 1) % length l.start_times)
              (set l.start_times l.start_time_cursor next)
            ++ take
                ((l.start_time_cursor + 1) % length l.start_times)
                (set l.start_times l.start_time_cursor next)
          ≡ drop (suc l.start_time_cursor) l.start_times
            ++ (take l.start_time_cursor l.start_times ++ next ∷ [])
        → window (recorded l next)
          ≡ drop (suc l.start_time_cursor) l.start_times
            ++ (take l.start_time_cursor l.start_times ++ next ∷ [])
    go h = unfold window in rw (← r.sized) h

abbrev pub is_some {ℓ} : {A : Type ℓ} → Option A → Bool
is_some none = false
is_some (some a) = true

restart_allowed :
    (l : Limiter) (next o : ℕ) (rest : List ℕ)
    → IsRing l
    → window l ≡ o ∷ rest
    → start_time_delta l next ≡ (next + 2 ^ 64 - o) % 2 ^ 64
unfolding start_time_delta
restart_allowed l next o rest r e =
    let (rest', front, same) = window_front l r in
    ap (λ x. (next + 2 ^ 64 - x) % 2 ^ 64) (ap head_of (sym front ∙ e))
  where
    head_of : List ℕ → ℕ
    head_of [] = 0
    head_of (x ∷ xs) = x

none_is_none {ℓ} : {A : Type ℓ} → is_some {A = Limiter} none ≡ true → A
none_is_none h = cc

run_cons :
    (l : Limiter) (t : ℕ) (ts : List ℕ)
    → (l.start_limit_interval ≤ start_time_delta l t)
        × (limit_run l (t ∷ ts) ≡ limit_run (recorded l t) ts)
      ⊎ (start_time_delta l t < l.start_limit_interval) × (limit_run l (t ∷ ts) ≡ none)
unfolding limit_run limit_restart
run_cons l t ts = elim (Bool-cases (ltb (start_time_delta l t) l.start_limit_interval)) [
  | inl early ↦ inr (ltb→lt _ _ early, rw (early, limit_run))
  | inr late ↦ inl (ground arith, rw (late, limit_run))
]

-- The limiter over a ring allows restarts at the times `ts`, one after another, exactly when each of
-- them is at least the interval after the start that lies a burst of starts before it, where the
-- starts before the first are those of the window.
limit_run-Lag :
    (ts : List ℕ) (l : Limiter)
    → IsRing l
    → (is_some (limit_run l ts) ≡ true) ↔ Lag l.start_limit_interval (window l ++ ts) ts
limit_run-Lag [] l r =
    ((λ h. no_later l.start_limit_interval (window l ++ [])), λ h. unfold limit_run in refl)
  where
    no_later : (i : ℕ) (s : List ℕ) → Lag i s []
    no_later i [] = tt
    no_later i (x ∷ s) = tt
limit_run-Lag (t ∷ ts) l r =
    let (rest, front, _) = window_front l r in
    let o = get_or l.start_times l.start_time_cursor 0 in
    let (to, from) = limit_run-Lag ts (recorded l t) (recorded-IsRing l t r) in
    let joined : window (recorded l t) ++ ts ≡ rest ++ t ∷ ts =
      ap (λ w. w ++ ts) (window-recorded l t o rest r front) ∙ append_assoc rest (t ∷ []) ts in
    let lag = restart_allowed l t o rest r front in
    rw front (elim (run_cons l t ts) [
      | inl (late, e) ↦ (
        (λ h. (rw lag at late, rw joined at (to (rw e at h)))),
        λ (_, h). rw e (from (rw joined h)),
      )
      | inr (early, e) ↦ ((λ h. none_is_none (rw e at h)), λ (h, _). absurd (omega (arith, lag)))
    ])

-- The ring of the set-up: the time of the first start, and zeros for starts not yet made.
abbrev fresh_ring : ℕ → ℕ → ℕ → Limiter
fresh_ring interval burst now = record {
  start_times = set (replicate burst 0) 0 now;
  start_time_cursor = 1 % burst;
  start_limit_burst = burst;
  start_limit_interval = interval;
}

length-replicate {ℓ} : {A : Type ℓ} (n : ℕ) (a : A) → length (replicate n a) ≡ n
length-replicate zero a = refl
length-replicate (suc n) a = ap suc (length-replicate n a)

fresh_ring-IsRing : (interval burst now : ℕ) → 1 < burst → IsRing (fresh_ring interval burst now)
fresh_ring-IsRing interval burst now h = record {
  sized = length-set (replicate burst 0) 0 now ∙ length-replicate burst 0;
  inside = grind arith;
}

window-fresh_ring :
    (interval burst now : ℕ)
    → window (fresh_ring interval (suc (suc burst)) now) ≡ replicate (suc burst) 0 ++ now ∷ []
unfolding window
window-fresh_ring interval burst now = let one : 1 % suc (suc burst) ≡ 1 = grind arith in rw one

limit_init-fresh_ring :
    (interval burst now : ℕ)
    → 0 < interval
    → 1 < burst
    → limit_init interval burst now ≡ some (fresh_ring interval (capped burst) now)
unfolding limit_init
limit_init-fresh_ring interval burst now h k = rw (ltb_true 0 interval h, ltb_true 1 burst k)
  where
    ltb_true : (a b : ℕ) → a < b → ltb a b ≡ true
    ltb_true a b h = ground arith

-- With an interval and a burst of at least two, a monitor first started at `now` allows restarts at
-- the times `ts` exactly when each restart is at least the interval after the start a burst of
-- starts before it (the burst capped at 100); where fewer starts have been made, the start before
-- counts as made at time 0.
pub limit_init-Lag :
    (interval burst now : ℕ) (ts : List ℕ)
    → 0 < interval
    → 1 < burst
    → (l : Limiter) × (limit_init interval burst now ≡ some l)
      × ((is_some (limit_run l ts) ≡ true)
          ↔ Lag interval ((replicate (capped burst - 1) 0 ++ now ∷ []) ++ ts) ts)
limit_init-Lag interval burst now ts h k = (
  fresh_ring interval (capped burst) now,
  limit_init-fresh_ring interval burst now h k,
  rw (← start_window (capped burst) (ground arith)) (
      limit_run-Lag ts (fresh_ring interval (capped burst) now)
        (fresh_ring-IsRing interval (capped burst) now (ground arith))),
)
  where
    start_window :
        (n : ℕ) → 1 < n → window (fresh_ring interval n now) ≡ replicate (n - 1) 0 ++ now ∷ []
    start_window zero p = absurd (omega arith)
    start_window (suc zero) p = absurd (omega arith)
    start_window (suc (suc n)) p =
        let less : suc (suc n) - 1 ≡ suc n = omega arith in
        window-fresh_ring interval n now ∙ (rw less)
