-- ===== src/Text/Search/Skip.antt =====
-- The search for an equal line, over text that is given line by line.
use sysvkit.Base.{
  ℕ, zero, suc, ◌-◌, ◌+◌, ◌≤◌, ◌≡◌, refl, sym, ap, ◌∙◌, true, false, some, List, [], ◌∷◌, ◌++◌,
  append_assoc, Bytes, bytes_eq, bytes_eq_refl, ◌<◌, span, span-append, ◌==◌, length, length-append,
  take, All, arith, Bool-cases, inl, inr,
}
use sysvkit.Text.{in_line, match_here}
use sysvkit.Text.Lines.{IsLine, unlines}
use sysvkit.Text.Search.{
  TextLine, at_line_end, line_equals, line_prefix, find_line, between, first_line_where,
  next_line_where,
}

-- A line other than the string.
abbrev pub IsOther : Bytes → Bytes → Type 0
IsOther str l = IsLine l × (bytes_eq str l ≡ false)

match_here-same :
    (s c : ℕ) (str t : Bytes)
    → in_line c ≡ true
    → (s == c) ≡ true
    → match_here (s ∷ str) (c ∷ t) ≡ match_here str t
unfolding match_here in_line
match_here-same s c str t h e = ground arith

match_here-other :
    (s c : ℕ) (str t : Bytes) → (s == c) ≡ false → match_here (s ∷ str) (c ∷ t) ≡ (false, c ∷ t)
unfolding match_here
match_here-other s c str t e = ground arith

no_line_end : (c : ℕ) (t : Bytes) → in_line c ≡ true → at_line_end (c ∷ t) ≡ false
unfolding in_line
no_line_end c t h = ground arith

newline_differs : (s : ℕ) → in_line s ≡ true → (s == b'\n') ≡ false
unfolding in_line
newline_differs s h = ground arith

line_end : (l rest : Bytes) → IsLine l → (span in_line (l ++ (b'\n' ∷ rest))).1 ≡ b'\n' ∷ rest
unfolding in_line
line_end l rest h = ap (λ p. p.1) (span-append in_line l (b'\n' ∷ rest) h refl)

-- A line is accepted if it is the string; else the match stops within it or at its end.
line_equals-here :
    (str l rest : Bytes)
    → IsLine str
    → IsLine l
    → ((line_equals str (l ++ (b'\n' ∷ rest))).0 ≡ bytes_eq str l)
      × ((span in_line (line_equals str (l ++ (b'\n' ∷ rest))).1).1 ≡ b'\n' ∷ rest)
unfolding line_equals bytes_eq
line_equals-here [] [] rest hs hl = unfold match_here in (refl, line_end [] rest tt)
line_equals-here [] (c ∷ l) rest hs (g, hl) =
    unfold match_here in (no_line_end c (l ++ (b'\n' ∷ rest)) g, line_end (c ∷ l) rest (g, hl))
line_equals-here (s ∷ str) [] rest (h, hs) hl =
    rw (match_here-other s b'\n' str rest (newline_differs s h)) (refl, line_end [] rest tt)
line_equals-here (s ∷ str) (c ∷ l) rest (h, hs) (g, hl) = elim (Bool-cases (s == c)) [
  | inl e ↦
      rw (e, match_here-same s c str (l ++ (b'\n' ∷ rest)) g e) (line_equals-here str l rest hs hl)
  | inr e ↦
      rw (e, match_here-other s c str (l ++ (b'\n' ∷ rest)) e) (refl, line_end (c ∷ l) rest (g, hl))
]

not_nul : (c : ℕ) → in_line c ≡ true → (c == 0) ≡ false
unfolding in_line
not_nul c h = ground arith

-- The search goes on behind another line, and ends at the string's line.
find_line_step :
    (str l rest : Bytes) (n : ℕ)
    → IsLine str
    → IsOther str l
    → find_line (line_equals str) (suc n) (l ++ (b'\n' ∷ rest)) ≡ find_line (line_equals str) n rest
unfolding find_line
find_line_step str [] rest n hs (hl, other) =
    let (accepted, end) = line_equals-here str [] rest hs hl in
    rw (find_line, accepted, other, end) refl
find_line_step str (c ∷ l) rest n hs (hl, other) =
    let (accepted, end) = line_equals-here str (c ∷ l) rest hs hl in
    rw (find_line, accepted, other, end, not_nul c (hl.0)) refl

find_line_found :
    (str rest : Bytes) (n : ℕ)
    → IsLine str
    → 0 < length str
    → find_line (line_equals str) (suc n) (str ++ (b'\n' ∷ rest))
      ≡ some (record { beg = str ++ (b'\n' ∷ rest); end = b'\n' ∷ rest })
unfolding find_line
find_line_found [] rest n hs h = absurd (omega arith)
find_line_found (c ∷ str) rest n hs h =
    let (accepted, end) = line_equals-here (c ∷ str) (c ∷ str) rest hs hs in
    rw (find_line, accepted, bytes_eq_refl (c ∷ str), end, not_nul c (hs.0)) refl

pub find_line-unlines :
    (str : Bytes) (ls : List Bytes) (rest : Bytes) (n : ℕ)
    → IsLine str
    → 0 < length str
    → All (IsOther str) ls
    → length (unlines ls ++ (str ++ (b'\n' ∷ rest))) ≤ n
    → find_line (line_equals str) n (unlines ls ++ (str ++ (b'\n' ∷ rest)))
      ≡ some (record { beg = str ++ (b'\n' ∷ rest); end = b'\n' ∷ rest })
find_line-unlines [] ls rest n hs h o enough = absurd (omega arith)
find_line-unlines (c ∷ str) [] rest zero hs h o enough = absurd (omega arith)
find_line-unlines (c ∷ str) [] rest (suc n) hs h o enough = find_line_found (c ∷ str) rest n hs h
find_line-unlines (c ∷ str) (l ∷ ls) rest zero hs h o enough = absurd (nonempty l enough)
  where
    nonempty :
        (l : Bytes) → length ((l ++ (b'\n' ∷ unlines ls)) ++ (c ∷ (str ++ (b'\n' ∷ rest)))) ≤ 0 → ⊥
    nonempty [] e = omega arith
    nonempty (d ∷ l) e = omega arith
find_line-unlines (c ∷ str) (l ∷ ls) rest (suc n) hs h (o, os) enough =
    let t = (c ∷ str) ++ (b'\n' ∷ rest) in
    let whole = append_assoc l (b'\n' ∷ unlines ls) t in
    let len = length-append l (b'\n' ∷ (unlines ls ++ t)) in
    rw (whole, find_line_step (c ∷ str) l (unlines ls ++ t) n hs o)
      (find_line-unlines (c ∷ str) ls rest n hs h os
        (shorter (length l) (ap length whole) len enough))
  where
    shorter : {a b d n : ℕ} (m : ℕ) → a ≡ b → b ≡ m + suc d → a ≤ suc n → d ≤ n
    shorter m e f h = omega arith

-- The next equal line, from the end of a line on.
pub next_line_where-unlines :
    (str : Bytes) (ls : List Bytes) (rest : Bytes)
    → IsLine str
    → 0 < length str
    → All (IsOther str) ls
    → next_line_where (line_equals str) (b'\n' ∷ (unlines ls ++ (str ++ (b'\n' ∷ rest))))
      ≡ some (record { beg = str ++ (b'\n' ∷ rest); end = b'\n' ∷ rest })
next_line_where-unlines str ls rest hs h os =
    go (unlines ls ++ (str ++ (b'\n' ∷ rest)))
      (find_line-unlines str ls rest _ hs h os (omega arith))
  where
    go :
        (t : Bytes) {x : TextLine}
        → find_line (line_equals str) (length t) t ≡ some x
        → next_line_where (line_equals str) (b'\n' ∷ t) ≡ some x
    go [] e = unfold find_line in cc
    go (c ∷ t) e = unfold next_line_where in e

pub first_line_where-unlines :
    (str : Bytes) (ls : List Bytes) (rest : Bytes)
    → IsLine str
    → 0 < length str
    → All (IsOther str) ls
    → first_line_where (line_equals str) (unlines ls ++ (str ++ (b'\n' ∷ rest)))
      ≡ some (record { beg = str ++ (b'\n' ∷ rest); end = b'\n' ∷ rest })
unfolding first_line_where
first_line_where-unlines str ls rest hs h os = find_line-unlines str ls rest _ hs h os (omega arith)

match_here-append : (str t : Bytes) → IsLine str → match_here str (str ++ t) ≡ (true, t)
unfolding match_here
match_here-append [] t h = refl
match_here-append (c ∷ str) t (h, hs) =
    rw (match_here-same c c str (str ++ t) h (==-refl c)) (match_here-append str t hs)
  where
    ==-refl : (c : ℕ) → (c == c) ≡ true
    ==-refl c = ground arith

-- A line with the prefix, where it is the next one.
pub next_line_where-prefix :
    (str l rest : Bytes)
    → IsLine str
    → IsLine l
    → 0 < length str
    → next_line_where (line_prefix str) (b'\n' ∷ (str ++ (l ++ (b'\n' ∷ rest))))
      ≡ some (record { beg = str ++ (l ++ (b'\n' ∷ rest)); end = b'\n' ∷ rest })
unfolding next_line_where find_line line_prefix
next_line_where-prefix [] l rest hs hl h = absurd (omega arith)
next_line_where-prefix (c ∷ str) l rest hs hl h =
    rw
      (
        next_line_where,
        find_line,
        line_prefix,
        match_here-append (c ∷ str) (l ++ (b'\n' ∷ rest)) hs,
        line_end l rest hl,
        not_nul c (hs.0),
      )
      refl

pub between-append : (s t : Bytes) → between (s ++ t) t ≡ s
unfolding between
between-append s t = rw (length-append s t, plus_minus (length s) (length t)) (taken s)
  where
    plus_minus : (m n : ℕ) → m + n - n ≡ m
    plus_minus m n = omega arith

    taken : (s : Bytes) → take (length s) (s ++ t) ≡ s
    taken [] = refl
    taken (c ∷ s) = ap (◌∷◌ c) (taken s)

pub unlines-append : (a b : List Bytes) → unlines (a ++ b) ≡ unlines a ++ unlines b
unlines-append [] b = refl
unlines-append (l ∷ a) b =
    ap (λ t. l ++ (b'\n' ∷ t)) (unlines-append a b)
    ∙ sym (append_assoc l (b'\n' ∷ unlines a) (unlines b))
