-- ===== src/Timespan/Print.antt =====
-- timespan_to_str's buffer and result, against the text of a span.
use sysvkit.Base.{
  ℕ, zero, suc, ◌+◌, ◌-◌, ◌/◌, ◌%◌, ◌≤◌, ◌<◌, ◌≡◌, refl, ap, ◌∙◌, sym, ◌≢◌, Bool, false, some, List,
  [], ◌∷◌, ◌++◌, append_assoc, append-nil, Bytes, codes, length, length-append, take, take-append,
  ltb, ◌==◌, if◌then◌else◌, decimal, arith, inl, inr, Bool-cases, suc_ne_zero,
}
use sysvkit.Timespan.{
  TimespanUnit, timespan_units, descending, infinity_str, ts_invalid, ts_infinity, Output,
  append_piece, emit_units, fresh_output, print_result, printed, timespan_to_str,
}
use sysvkit.Timespan.Pieces.{
  Piece, piece_text, render, pieces, Descends, pieces-zero, append_pieces, emit_units-zero,
  emit_units_skip, pieces_skip, mod_lt, emit_units_take, emit_units_last, pieces_last, pieces_take,
  le_or_lt,
}

-- A magnitude with its unit.

-- With as much fuel as there are units, the loop writes the greedy decomposition.
emit_units-pieces :
    (us : List TimespanUnit) (f ts : ℕ) (out : Output)
    → Descends us
    → length us ≤ f
    → emit_units (suc f) us ts out ≡ some (append_pieces out (pieces us ts))
emit_units-pieces us f zero out d h =
    rw (pieces-zero us) (emit_units-zero f us out ∙ (unfold append_pieces in refl))
emit_units-pieces [] f (suc t) out d h = absurd d
emit_units-pieces (u ∷ us) zero (suc t) out d h = absurd (omega arith)
emit_units-pieces (u ∷ []) (suc f) (suc t) out d h =
    rw (pieces_last u (suc t) (omega arith) d)
      (emit_units_last f u (suc t) out (omega arith) d ∙ (unfold append_pieces piece_text in refl))
emit_units-pieces (u ∷ v ∷ us) (suc f) (suc t) out d h = elim (le_or_lt (suc t) u.value) [
  | inl below ↦
      emit_units_skip (suc f) u v us (suc t) out below
      ∙ emit_units-pieces (v ∷ us) (suc f) (suc t) out d.1 (omega arith)
      ∙ ap (λ ps. some (append_pieces out ps)) (sym (pieces_skip u (v ∷ us) (suc t) below))
  | inr above ↦
      let rest = suc t % u.value in
      let small : rest < u.value = mod_lt (suc t) u.value d.0 in
      let out' = append_piece out (decimal (suc t / u.value) ++ u.name) in
      emit_units_take (suc f) u v us (suc t) out above (omega arith)
      ∙ emit_units_skip f u v us rest out' small
      ∙ emit_units-pieces (v ∷ us) f rest out' d.1 (omega arith)
      ∙ (rw (pieces_take u (v ∷ us) (suc t) above (omega arith))
          (unfold append_pieces piece_text in refl))
]

-- What has been printed so far is `text`: the buffer holds the prefix that fits with its
-- terminator, and the room left is what is not used, at least that of the terminator.
record Holds (size : ℕ) (text : Bytes) (out : Output) : Type 0 where
  stores : out.stored ≡ take (size - 1) text
  counts : out.len ≡ length text
  room : 0 < size → out.size ≡ suc (size - 1 - length text)
  null : size ≡ 0 → out.size ≡ 0

take_nil : (n : ℕ) → take {A = ℕ} n [] ≡ []
take_nil zero = refl
take_nil (suc n) = refl

room_left : (m l k : ℕ) → k ≡ suc m → (if ltb l k then k - l else 1) ≡ suc (m - l)
room_left m l k e = ground arith

fresh-Holds : (size : ℕ) → Holds size [] (fresh_output size)
fresh-Holds size = record {
  stores = sym (take_nil (size - 1));
  counts = refl;
  room = λ h. omega arith;
  null = λ h. h;
}

append_piece_null :
    (o : Output) (s : Bytes) → o.size ≡ 0 → append_piece o s ≡ record o { len = o.len + length s }
unfolding append_piece
append_piece_null o s e = rw e

append_piece_room :
    (o : Output) (s : Bytes) (m : ℕ)
    → o.size ≡ suc m
    → append_piece o s
      ≡ record { stored = o.stored ++ take m s; size = suc (m - length s); len = o.len + length s }
unfolding append_piece
append_piece_room o s m e = rw e (
    rw (room_left m (length s) (suc m) refl)
      (let less : suc m - 1 ≡ m = omega arith in rw less (rw (suc_ne_zero m))))

append_piece-Holds :
    (size : ℕ) (text piece : Bytes) (out : Output)
    → Holds size text out
    → Holds size (text ++ piece) (append_piece out piece)
append_piece-Holds zero text piece out h = record {
  stores = rw (append_piece_null out piece (h.null refl)) h.stores;
  counts =
      rw (append_piece_null out piece (h.null refl))
        (omega (arith, h.counts, length-append text piece));
  room = λ p. absurd (omega arith);
  null = λ e. rw (append_piece_null out piece (h.null refl)) (h.null e);
}
append_piece-Holds (suc k) text piece out h =
    let left = k - length text in
    let size : out.size ≡ suc left = omega (arith, h.room) in
    rw (append_piece_room out piece left size) (record {
      stores = rw h.stores (store (suc k - 1) (omega arith));
      counts = omega (arith, h.counts, length-append text piece);
      room = λ p. omega (arith, length-append text piece);
      null = λ e. absurd (omega arith);
    })
  where
    store : (n : ℕ) → n ≡ k → take n text ++ take (k - length text) piece ≡ take n (text ++ piece)
    store n e = rw (take-append n text piece, e)

append_pieces-Holds :
    (size : ℕ) (ps : List Piece) (text : Bytes) (out : Output)
    → Holds size text out
    → Holds size (text ++ render ps) (append_pieces out ps)
unfolding render append_pieces
append_pieces-Holds size [] text out h = rw append-nil h
append_pieces-Holds size (p ∷ ps) text out h = rw (← append_assoc text (piece_text p) (render ps)) (
    append_pieces-Holds size ps (text ++ piece_text p) (append_piece out (piece_text p))
      (append_piece-Holds size text (piece_text p) out h))

-- The text of a time span.
unfoldable pub span_text : ℕ → Bytes
unfolding render pieces
span_text ts =
    if ts == 0
    then codes "0"
    else if ts == ts_infinity
    then infinity_str
    else render (pieces descending ts)

pub descending-Descends : Descends descending
unfolding descending
descending-Descends = omega arith

descending-length : length descending ≤ length timespan_units
unfolding descending
descending-length = omega arith

abbrev pub room_for : Bool → ℕ → ℕ
room_for null size = if null then 0 else size

from_Holds :
    (size : ℕ) (text : Bytes) (out : Output)
    → Holds size text out
    → print_result (some out) ≡ printed (length text) (take (size - 1) text)
from_Holds size text out h = rw (h.counts, h.stores)

ne_false : (a b : ℕ) → a ≢ b → (a == b) ≡ false
ne_false a b h = ground arith

one_piece :
    (size : ℕ) (text : Bytes)
    → print_result (some (append_piece (fresh_output size) text))
      ≡ printed (length text) (take (size - 1) text)
one_piece size text =
    from_Holds size text (append_piece (fresh_output size) text)
      (append_piece-Holds size [] text (fresh_output size) (fresh-Holds size))

all_pieces :
    (size ts : ℕ)
    → print_result (emit_units (suc (length timespan_units)) descending ts (fresh_output size))
      ≡ printed
          (length (render (pieces descending ts)))
          (take (size - 1) (render (pieces descending ts)))
all_pieces size ts =
    rw
      (emit_units-pieces descending (length timespan_units) ts (fresh_output size)
        descending-Descends descending-length)
      (from_Holds size (render (pieces descending ts))
        (append_pieces (fresh_output size) (pieces descending ts))
        (append_pieces-Holds size (pieces descending ts) [] (fresh_output size) (fresh-Holds size)))

-- For any span but TS_INVALID, the call returns the length of the span's whole text, and the
-- buffer holds the part of that text that fits in front of the terminator (nothing for a null
-- buffer). The loop always ends.
pub timespan_to_str-span_text :
    (null : Bool) (size ts : ℕ)
    → ts ≢ ts_invalid
    → timespan_to_str null size ts
      ≡ printed (length (span_text ts)) (take (room_for null size - 1) (span_text ts))
unfolding timespan_to_str span_text
timespan_to_str-span_text null size ts h = elim (Bool-cases (ts == 0)) [
  | inl zero_span ↦ rw zero_span (one_piece (room_for null size) (codes "0"))
  | inr positive ↦
      rw (positive, ne_false ts ts_invalid h)
        (elim (Bool-cases (ts == ts_infinity)) [
          | inl forever ↦ rw forever (one_piece (room_for null size) infinity_str)
          | inr finite ↦ rw finite (all_pieces (room_for null size) ts)
        ])
]
