-- ===== src/Systemd/Quoting.antt =====
-- systemd's quoting rules on quoted words.
use sysvkit.Base.{
  ℕ, ◌≡◌, refl, ap, ◌∙◌, Bool, true, not, ◌&&◌, List, [], ◌∷◌, ◌++◌, append_assoc, append-nil,
  Bytes, ◌==◌, All, arith,
}
use sysvkit.Systemd.{appended, plain_step, word_step, next_state, split_loop, systemd_split_quoted}

-- Bytes that stand for themselves between double quotes.
abbrev pub is_literal : ℕ → Bool
is_literal c = not (c == b'"') && not (c == b'\\')

-- Words between double quotes, each with a space behind it.
abbrev pub quoted_text : List Bytes → Bytes
quoted_text [] = []
quoted_text (w ∷ ws) = b'"' ∷ (w ++ (b'"' ∷ b' ' ∷ quoted_text ws))

word_step_literal : (c : ℕ) (p : Bytes) → is_literal c ≡ true → word_step b'"' c p ≡ appended c
unfolding word_step plain_step
word_step_literal c p h = ground arith

split_loop-literal :
    (w word rest : Bytes)
    → All (λ c. is_literal c ≡ true) w
    → split_loop true b'"' word (w ++ rest) ≡ split_loop true b'"' (word ++ w) rest
unfolding split_loop next_state
split_loop-literal [] word rest h = rw (append-nil word) refl
split_loop-literal (c ∷ w) word rest (h, hs) =
    rw (split_loop, next_state, word_step_literal c (w ++ rest) h)
      (split_loop-literal w (word ++ c ∷ []) rest hs ∙ rw (append_assoc word (c ∷ []) w) refl)

-- Splitting words that stand between double quotes gives the words back, empty words and those with
-- blanks or single quotes too, if they have no double quote and no backslash.
pub systemd_split_quoted-quoted_text :
    (ws : List Bytes)
    → All (λ w. All (λ c. is_literal c ≡ true) w) ws
    → systemd_split_quoted (quoted_text ws) ≡ ws
unfolding systemd_split_quoted split_loop next_state word_step plain_step
systemd_split_quoted-quoted_text [] h = refl
systemd_split_quoted-quoted_text (w ∷ ws) (h, hs) =
    rw (split_loop-literal w [] (b'"' ∷ b' ' ∷ quoted_text ws) h)
      (ap (◌∷◌ w) (systemd_split_quoted-quoted_text ws hs))
