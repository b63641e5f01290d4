-- ===== src/Timespan/Tests.antt =====
-- Runs of the time span functions, and instances of their theorems.
use sysvkit.Base.{span, value_from, bytes_eq, ◌≡◌, refl, false, codes, decimal}
use sysvkit.Base.{
  ℕ, ◌*◌, ◌-◌, ◌%◌, ◌^◌, ◌<◌, ◌≢◌, ◌∷◌, Bytes, length, take, arith, einval, ap, sym, ◌∙◌,
}
use sysvkit.Timespan.{
  skip_blanks, ts_invalid, ts_sec, infinity_str, invalid, PrintResult, failed, stuck,
}
use sysvkit.Timespan.Print.{span_text, room_for, timespan_to_str-span_text}
use sysvkit.Timespan.Errors.{timespan_from_str_unitless}
use sysvkit.Timespan.RoundTrip.{timespan_from_str-timespan_to_str}
use sysvkit.Timespan.{
  from_trimmed, start_over, timespan_loop, strtoumax, skip_blanks, scan_end, find_unit, seek,
  timespan_from_str, timespan_to_str, descending, timespan_units, append_piece, emit_units, value,
  printed,
}

-- Whatever a run goes through.
runs : Unit {0}
unfolding timespan_from_str from_trimmed start_over timespan_loop strtoumax skip_blanks scan_end
    span value_from find_unit bytes_eq timespan_units timespan_to_str append_piece emit_units seek
    decimal descending
runs = tt

mixed_units : timespan_from_str 0 (codes " 1h 30min\n") ≡ value 5400000000
unfolding runs
mixed_units = refl

printed_mixed : timespan_to_str false 64 5400000000 ≡ printed 5 (codes "1h30m")
unfolding runs
printed_mixed = refl

-- "infinity" with a blank behind it.
infinity_blank : timespan_from_str 0 (codes "infinity ") ≡ invalid einval
unfolding runs
infinity_blank = refl

some_span : 5400000000 ≢ ts_invalid
some_span e = omega arith

printed_length : PrintResult → ℕ
printed_length r = elim r [ printed n text ↦ n | failed e ↦ 0 | stuck ↦ 0 ]

room_example : length (span_text 5400000000) < 64
unfolding printed_length
room_example =
    let same : length (span_text 5400000000) ≡ 5 =
      ap printed_length
        (sym (timespan_to_str-span_text false 64 5400000000 some_span) ∙ printed_mixed) in
    omega (arith, same)

timespan_from_str-timespan_to_str_example :
    (n : ℕ) × (text : Bytes) × (timespan_to_str false 64 5400000000 ≡ printed n text)
    × (timespan_from_str 0 text ≡ value 5400000000)
timespan_from_str-timespan_to_str_example =
    timespan_from_str-timespan_to_str 0 64 5400000000 (omega arith) room_example

timespan_to_str-span_text_example :
    timespan_to_str false 4 5400000000
    ≡ printed (length (span_text 5400000000)) (take (room_for false 4 - 1) (span_text 5400000000))
timespan_to_str-span_text_example = timespan_to_str-span_text false 4 5400000000 some_span

blank_front : skip_blanks (codes " soon") ≡ b's' ∷ codes "oon"
unfolding runs
blank_front = refl

no_infinity : b's' ∷ codes "oon" ≢ infinity_str
no_infinity e = cc

timespan_from_str_unitless_example :
    timespan_from_str 0 (decimal 18446744073710) ≡ value (18446744073710 * ts_sec % 2 ^ 64)
timespan_from_str_unitless_example = timespan_from_str_unitless 0 18446744073710 (omega arith)
