-- ===== src/Text/Find.antt =====
-- Searching for a string in a text.
use sysvkit.Base.{
  ℕ, zero, suc, ◌≡◌, refl, sym, subst, suc_ne_zero, take, Bool, true, false, ◌&&◌, Option, none,
  some, List, [], ◌∷◌, Bytes, ◌==◌, if◌then◌else◌, All, arith, Bool-cases, inl, inr,
}
use sysvkit.Text.{pattern, match_here, find_from, text_find}

-- Whether a text begins with a string.
abbrev pub starts_with : Bytes → Bytes → Bool
starts_with [] txt = true
starts_with (s ∷ str) [] = false
starts_with (s ∷ str) (q ∷ txt) = q == s && starts_with str txt

-- The string has no NUL in it.
abbrev pub NoNul : Bytes → Type 0
NoNul s = All (λ c. (c == 0) ≡ false) s

match_here-starts : (str txt : Bytes) → NoNul str → (match_here str txt).0 ≡ starts_with str txt
unfolding match_here
match_here-starts [] txt h = refl
match_here-starts (s ∷ str) [] h = refl
match_here-starts (s ∷ str) (q ∷ txt) (h, hs) = ground (arith, match_here-starts str txt hs)

-- The places in a text, from its start on.
abbrev pub suffixes : Bytes → List Bytes
suffixes [] = []
suffixes (p ∷ txt) = (p ∷ txt) ∷ suffixes txt

abbrev pub first_where : (Bytes → Bool) → List Bytes → Option Bytes
first_where ok [] = none
first_where ok (t ∷ ts) = if ok t then some t else first_where ok ts

find_from-first :
    (s : ℕ) (str txt : Bytes)
    → NoNul (s ∷ str)
    → NoNul txt
    → find_from (s ∷ str) txt ≡ first_where (starts_with (s ∷ str)) (suffixes txt)
unfolding find_from
find_from-first s str [] h ht = refl
find_from-first s str (p ∷ txt) h (hp, ht) =
    rw (hp, match_here-starts (s ∷ str) (p ∷ txt) h, find_from-first s str txt h ht)
      (elim (Bool-cases (p == s)) [ inl e ↦ rw (e) refl | inr e ↦ rw (e) refl ])

pattern_cons : (s len : ℕ) (str : Bytes) → (rest : Bytes) × (pattern (s ∷ str) len ≡ s ∷ rest)
unfolding pattern
pattern_cons s zero str = (str, refl)
pattern_cons s (suc len) str = (take len str, rw (suc_ne_zero len) refl)

-- In a text without a NUL, text_find returns the first place where the string stands: that of its
-- first `len` bytes, or of all of it where `len` is 0, if the string is not empty and has no NUL.
pub text_find-first :
    (s len : ℕ) (str txt : Bytes)
    → NoNul (pattern (s ∷ str) len)
    → NoNul txt
    → text_find txt (s ∷ str) len ≡ first_where (starts_with (pattern (s ∷ str) len)) (suffixes txt)
unfolding text_find
text_find-first s len str txt h ht =
    let (rest, e) = pattern_cons s len str in
    subst (λ p. NoNul p → find_from p txt ≡ first_where (starts_with p) (suffixes txt)) (sym e)
      (λ h. find_from-first s rest txt h ht) h
