-- ===== src/Monitor/Control/Framing.antt =====
-- How a request's bytes become the command that is compared.
use sysvkit.Base.{
  ℕ, zero, suc, ◌+◌, ◌-◌, ◌≤◌, ◌<◌, ◌≡◌, refl, ap, ◌∙◌, sym, ◌≢◌, Bool, true, false, [], ◌∷◌, ◌++◌,
  append_assoc, append-nil, Bytes, codes, bytes_eq, bytes_eq_sound, length, length-append, drop,
  All, arith, inl, inr, Bool-cases,
}
use sysvkit.Monitor.{Monitor}
use sysvkit.Monitor.Control.{
  is_space, keep_before, strip_space, c_string, stored_request, stored_reply, banner, respond,
  serve,
}

strip_spaces : (ws : Bytes) → All (λ c. is_space c ≡ true) ws → strip_space ws ≡ []
unfolding strip_space keep_before
strip_spaces [] h = refl
strip_spaces (c ∷ ws) (h, hs) = rw (strip_spaces ws hs) (rw h)

strip_space-append :
    (s ws : Bytes) → All (λ c. is_space c ≡ true) ws → strip_space (s ++ ws) ≡ strip_space s
strip_space-append [] ws h = strip_spaces ws h ∙ (unfold strip_space in refl)
strip_space-append (c ∷ s) ws h = step c s (s ++ ws) (strip_space-append s ws h)
  where
    step :
        (c : ℕ) (s t : Bytes)
        → strip_space t ≡ strip_space s
        → strip_space (c ∷ t) ≡ strip_space (c ∷ s)
    step c s t e = unfold strip_space in ap (keep_before c) e

abbrev pub NoNul : Bytes → Type 0
NoNul = All (λ c. c ≢ 0)

c_string-append : (s t : Bytes) → NoNul s → c_string (s ++ t) ≡ s ++ c_string t
unfolding c_string
c_string-append [] t h = refl
c_string-append (c ∷ s) t (h, hs) = ground (arith, c_string-append s t hs)

-- A command with white space behind it is compared as it was sent, whatever the buffer held.
pub request_terminated :
    (cmd ws buf : Bytes)
    → strip_space cmd ≡ cmd
    → NoNul cmd
    → ws ≢ []
    → All (λ c. is_space c ≡ true) ws
    → c_string (stored_request (cmd ++ ws) buf) ≡ cmd
unfolding stored_request
request_terminated cmd ws buf whole nn some_space spaces =
    let kept : strip_space (cmd ++ ws) ≡ cmd = strip_space-append cmd ws spaces ∙ whole in
    let (n, e) = more (length-append cmd ws) (length_pos ws some_space) in
    rw (kept, e) (c_string-append cmd _ nn ∙ (unfold c_string in append-nil cmd))
  where
    length_pos : (t : Bytes) → t ≢ [] → 0 < length t
    length_pos [] h = absurd (h refl)
    length_pos (c ∷ t) h = omega arith

    more :
        length (cmd ++ ws) ≡ length cmd + length ws
        → 0 < length ws
        → (n : ℕ) × (length (cmd ++ ws) - length cmd ≡ suc n)
    more e h = (length ws - 1, omega arith)

-- The last byte of the banner is a newline, which no command has.
not_line : (t : Bytes) → All (λ c. c ≢ b'\n') (t ++ b'\n' ∷ []) → ⊥
not_line [] (h, _) = h refl
not_line (c ∷ t) (_, hs) = not_line t hs

line_differs :
    (s w : Bytes)
    → (t : Bytes) → s ≡ t ++ b'\n' ∷ []
    → All (λ c. c ≢ b'\n') w
    → bytes_eq s w ≡ false
line_differs s w t e h = elim (Bool-cases (bytes_eq s w)) [
  | inl same ↦ absurd (not_line t (rw (← e) (rw (bytes_eq_sound s w same) h)))
  | inr other ↦ other
]

respond_line :
    (privileged : Bool) (s t : Bytes) (mon : Monitor)
    → s ≡ t ++ b'\n' ∷ []
    → respond privileged s mon ≡ (codes "error", mon)
unfolding respond
respond_line privileged s t mon e = rw (
  line_differs s (codes "status") t e (ground arith),
  line_differs s (codes "stop") t e (ground arith),
  line_differs s (codes "restart") t e (ground arith),
  line_differs s (codes "noise=debug") t e (ground arith),
  line_differs s (codes "noise=verbose") t e (ground arith),
  line_differs s (codes "noise=normal") t e (ground arith),
)

drop-append : (n : ℕ) (xs ys : Bytes) → n ≤ length xs → drop n (xs ++ ys) ≡ drop n xs ++ ys
drop-append zero xs ys h = refl
drop-append (suc n) [] ys h = absurd (omega arith)
drop-append (suc n) (x ∷ xs) ys h = drop-append n xs ys (omega arith)

drop-NoNul : (n : ℕ) (xs : Bytes) → NoNul xs → NoNul (drop n xs)
drop-NoNul zero xs h = h
drop-NoNul (suc n) [] h = tt
drop-NoNul (suc n) (x ∷ xs) (h, hs) = drop-NoNul n xs hs

abbrev banner_return : Bytes
banner_return = banner ++ b'\r' ∷ []

line_end : (rest : Bytes) → c_string (b'\n' ∷ 0 ∷ rest) ≡ b'\n' ∷ []
unfolding c_string
line_end rest = refl

-- What a request with no white space behind it is compared as, in a session's first round.
first_request :
    (cmd junk : Bytes)
    → strip_space cmd ≡ cmd
    → NoNul cmd
    → length cmd ≤ length banner_return
    → c_string (stored_request cmd (stored_reply banner junk))
      ≡ (cmd ++ drop (length cmd) banner_return) ++ b'\n' ∷ []
unfolding stored_request stored_reply
first_request cmd junk whole nn short =
    let n = length cmd in
    let none_left : n - n ≡ 0 = omega arith in
    rw (whole, none_left, drop-append n banner_return (b'\n' ∷ 0 ∷ drop 26 junk) short)
      (c_string-append cmd _ nn
        ∙ ap (λ t. cmd ++ t)
            (c_string-append (drop n banner_return) _ (drop-NoNul n banner_return (ground arith))
              ∙ ap (λ t. drop n banner_return ++ t) (line_end (drop 26 junk)))
        ∙ sym (append_assoc cmd (drop n banner_return) (b'\n' ∷ [])))

-- A request of at most 24 bytes with no white space behind it, sent first in a session, is answered
-- with an error and changes nothing, a privileged "stop" or "restart" included: the rest of the
-- banner is still in the buffer behind it.
pub serve_unterminated :
    (privileged : Bool) (cmd junk : Bytes) (mon : Monitor)
    → strip_space cmd ≡ cmd
    → NoNul cmd
    → length cmd ≤ 24
    → ((serve privileged cmd (stored_reply banner junk) mon).0 ≡ codes "error")
      × ((serve privileged cmd (stored_reply banner junk) mon).1 ≡ mon)
unfolding serve
serve_unterminated privileged cmd junk mon whole nn short =
    let answer =
      respond_line privileged _ (cmd ++ drop (length cmd) banner_return) mon
        (first_request cmd junk whole nn short) in
    (ap (λ p. p.0) answer, ap (λ p. p.1) answer)
