-- ===== src/Systemd/Parse/Lines.antt =====
-- What one line of a unit file comes to, as unit_to_byte_array writes it.
use mathlib.Core.List.{reverse, reverse-cons}
use sysvkit.Base.{
  ℕ, ◌+◌, ◌-◌, ◌<◌, ◌≡◌, ◌≢◌, refl, true, false, ◌&&◌, [], ◌∷◌, ◌++◌, append_assoc, append-nil,
  Bytes, ◌==◌, length, span, span-append, All, arith,
}
use sysvkit.Systemd.{isblank, isprint}
use sysvkit.Systemd.Parse.{
  issectionname, iskey, name_size, value_size, header, pair, header_line, header_end, go_on,
  in_value, push, push_normal, scan_step, trimmed, value_end, value_loop, behind_equals, equals,
  behind_key, pair_line, parse_line,
}

-- A section's name and a key that the parser takes.
abbrev pub IsSectionName : Bytes → Type 0
IsSectionName name =
    All (λ c. issectionname c ≡ true) name × (0 < length name) × (length name < name_size - 1)

abbrev pub IsKey : Bytes → Type 0
IsKey key = All (λ c. iskey c ≡ true) key × (0 < length key) × (length key < name_size - 1)

-- The bytes of a value behind the byte l: printable, no space behind a space, and neither a space
-- nor a backslash at the end.
abbrev pub NormalFrom : ℕ → Bytes → Type 0
NormalFrom l [] = (l ≢ b' ') × (l ≢ b'\\')
NormalFrom l (c ∷ v) = (isprint c ≡ true) × ((l == b' ' && c == b' ') ≡ false) × NormalFrom c v

-- A value that the parser takes as it is: empty, or with no space at its beginning either.
abbrev pub IsNormal : Bytes → Type 0
IsNormal [] = Unit
IsNormal (c ∷ v) = NormalFrom b' ' (c ∷ v) × (length (c ∷ v) < value_size - 1)

pub parse_line-header :
    (name rest : Bytes)
    → IsSectionName name
    → parse_line b'[' (name ++ (b']' ∷ b'\n' ∷ rest)) ≡ header name rest
unfolding parse_line header_line header_end
parse_line-header name rest (ok, n, m) =
    rw (span-append issectionname name (b']' ∷ b'\n' ∷ rest) ok refl) (ground arith)

push-normal :
    (c l : ℕ) (rev : Bytes)
    → isprint c ≡ true
    → (l == b' ' && c == b' ') ≡ false
    → push c (l ∷ rev) ≡ c ∷ l ∷ rev
unfolding push push_normal
push-normal c l rev p s = ground arith

-- A byte of a normal value is appended to it.
step_in_value :
    (c l : ℕ) (rev v rest : Bytes)
    → NormalFrom l (c ∷ v)
    → push c rev ≡ c ∷ rev
    → scan_step in_value rev c (v ++ (b'\n' ∷ rest)) ≡ go_on in_value (c ∷ rev)
unfolding scan_step
step_in_value c l rev [] rest (p, s, (a, b)) e = rw (e) (ground arith)
step_in_value c l rev (d ∷ v) rest (p, s, (q, _, _)) e = rw (e) (ground arith)

-- The end of a value that has no trailing space.
value_end_normal :
    (key rev rest : Bytes) (l : ℕ)
    → l ≢ b' '
    → length key < name_size - 1
    → length (l ∷ rev) < value_size - 1
    → value_end key (l ∷ rev) b'\n' rest ≡ pair key (reverse (l ∷ rev)) rest
unfolding value_end trimmed
value_end_normal key rev rest l a hk hv = ground arith

value_loop_normal :
    (key rev v rest : Bytes) (l : ℕ)
    → NormalFrom l v
    → length key < name_size - 1
    → length (l ∷ rev) + length v < value_size - 1
    → value_loop key in_value (l ∷ rev) (v ++ (b'\n' ∷ rest))
      ≡ pair key (reverse (l ∷ rev) ++ v) rest
unfolding value_loop scan_step
value_loop_normal key rev [] rest l (a, b) hk hv =
    rw
      (
        append-nil (reverse (l ∷ rev)),
        value_loop,
        value_end_normal key rev rest l a hk (omega arith),
      )
      refl
value_loop_normal key rev (c ∷ v) rest l n hk hv =
    rw
      (
        value_loop,
        step_in_value c l (l ∷ rev) v rest n (push-normal c l rev (n.0) (n.1)),
        value_loop_normal key (l ∷ rev) v rest c (n.2) hk (omega arith),
        reverse-cons c (l ∷ rev),
        append_assoc (reverse (l ∷ rev)) (c ∷ []) v,
      )
      refl

push_first : (c : ℕ) → isprint c ≡ true → push c [] ≡ c ∷ []
unfolding push push_normal
push_first c p = ground arith

no_blank :
    (c : ℕ) (s : Bytes)
    → isprint c ≡ true
    → (c == b' ') ≡ false
    → span isblank (c ∷ s) ≡ ([], c ∷ s)
unfolding span
no_blank c s p e = ground arith

behind_equals_normal :
    (key v rest : Bytes)
    → IsNormal v
    → length key < name_size - 1
    → behind_equals key (v ++ (b'\n' ∷ rest)) ≡ pair key v rest
unfolding behind_equals value_loop scan_step value_end trimmed span
behind_equals_normal key [] rest n hk = ground arith
behind_equals_normal key (c ∷ v) rest (n, m) hk =
    rw
      (
        no_blank c (v ++ (b'\n' ∷ rest)) (n.0) (n.1),
        value_loop,
        step_in_value c b' ' [] v rest n (push_first c (n.0)),
        value_loop_normal key [] v rest c (n.2) hk (omega arith),
      )
      refl

-- A byte of a key begins no comment and no header.
parse_line_key : (c : ℕ) (s : Bytes) → iskey c ≡ true → parse_line c s ≡ pair_line (c ∷ s)
unfolding parse_line
parse_line_key c s h = ground arith

pub parse_line-pair :
    (c : ℕ) (key v rest : Bytes)
    → IsKey (c ∷ key)
    → IsNormal v
    → parse_line c (key ++ (b'=' ∷ (v ++ (b'\n' ∷ rest)))) ≡ pair (c ∷ key) v rest
unfolding pair_line behind_key equals span
parse_line-pair c key v rest (ok, n, m) hv =
    let rest' = b'=' ∷ (v ++ (b'\n' ∷ rest)) in
    rw
      (
        parse_line_key c (key ++ rest') (ok.0),
        span-append iskey (c ∷ key) rest' ok refl,
        behind_equals_normal (c ∷ key) v rest hv m,
      )
      (ground arith)
