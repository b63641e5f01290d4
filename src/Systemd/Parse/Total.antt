-- ===== src/Systemd/Parse/Total.antt =====
-- Every unit file is read to a result: each line takes at least a byte, and the unit's values stay
-- live.
use mathlib.Core.Bool.{◌||◌}
use mathlib.Core.List.{reverse}
use sysvkit.Base.{
  ℕ, zero, suc, ◌≤◌, inl, inr, sym, ◌∙◌, Bool, true, false, none, some, [], ◌∷◌, Bytes, ◌==◌, ltb,
  if◌then◌else◌, length, span, arith, Bool-cases,
}
use sysvkit.Table.{HashTable}
use sysvkit.UnitFile.{ServiceUnit, unit_create}
use sysvkit.UnitFile.Values.{
  AllLive, unit_get_value-unit_update_value, unit_get_value-unit_create, missing_live,
}
use sysvkit.Systemd.{isblank}
use sysvkit.Systemd.Parse.{
  issectionname, iskey, Line, skipped, header, pair, bad, comment_line, behind_comment,
  in_comment_line, header_line, header_end, Mode, in_value, Scan, go_on, ended, scan_step,
  value_end, value_loop, behind_equals, equals, behind_key, pair_line, parse_line, Parsed, parsed,
  malformed, freed_memory, out_of_fuel, store, is_empty, parse_lines, systemd_parse_unit_file,
  trimmed,
}

-- What is behind a line is no longer than n.
abbrev pub Within : ℕ → Line → Type 0
Within n (skipped rest) = length rest ≤ n
Within n (header name rest) = length rest ≤ n
Within n (pair key v rest) = length rest ≤ n
Within n bad = Unit

Within-if :
    (n : ℕ) (b : Bool) (l m : Line) → Within n l → Within n m → Within n (if b then l else m)
Within-if n true l m hl hm = hl
Within-if n false l m hl hm = hm

length-span : (ok : ℕ → Bool) (s : Bytes) → length (span ok s).1 ≤ length s
unfolding span
length-span ok [] = omega arith
length-span ok (c ∷ s) = elim (Bool-cases (ok c)) [
  | inl e ↦ rw (e) (let h = length-span ok s in omega arith)
  | inr e ↦ rw (e) (omega arith)
]

-- Each part takes at least a byte of what it is given.
behind_comment-Within : (n : ℕ) (p : Bytes) → length p ≤ suc n → Within n (behind_comment p)
unfolding behind_comment
behind_comment-Within n [] h = tt
behind_comment-Within n (c ∷ p) h = Within-if n (c == 0) bad (skipped p) tt (omega arith)

comment_line-Within : (n : ℕ) (s : Bytes) → length s ≤ suc n → Within n (comment_line s)
unfolding comment_line
comment_line-Within n s h =
    let le = length-span in_comment_line s in
    behind_comment-Within n (span in_comment_line s).1 (omega arith)

header_end-Within : (n : ℕ) (name q : Bytes) → length q ≤ suc n → Within n (header_end name q)
unfolding header_end
header_end-Within n name [] h = tt
header_end-Within n name (b ∷ []) h = tt
header_end-Within n name (b ∷ d ∷ r) h = Within-if n _ bad (header name r) tt (omega arith)

header_line-Within : (n : ℕ) (s : Bytes) → length s ≤ suc n → Within n (header_line s)
unfolding header_line
header_line-Within n s h =
    let le = length-span issectionname s in
    header_end-Within n (span issectionname s).0 (span issectionname s).1 (omega arith)

value_loop-Within :
    (n : ℕ) (key : Bytes) (m : Mode) (rev r : Bytes)
    → length r ≤ suc n
    → Within n (value_loop key m rev r)
unfolding value_loop value_end
value_loop-Within n key m rev [] h = tt
value_loop-Within n key m rev (c ∷ r) h =
    by_step (scan_step m rev c r) (λ m' rev'. value_loop-Within n key m' rev' r (omega arith))
  where
    by_step :
        (s : Scan)
        → ((m' : Mode) (rev' : Bytes) → Within n (value_loop key m' rev' r))
        → Within n
            (elim s [ go_on m' rev' ↦ value_loop key m' rev' r | ended ↦ value_end key rev c r ])
    by_step (go_on m' rev') rec = rec m' rev'
    by_step ended rec = Within-if n _ bad (pair key (reverse (trimmed rev)) r) tt (omega arith)

equals-Within : (n : ℕ) (key q : Bytes) → length q ≤ suc n → Within n (equals key q)
unfolding equals behind_equals
equals-Within n key [] h = tt
equals-Within n key (c ∷ q) h =
    let le = length-span isblank q in
    Within-if n _ (behind_equals key q) bad
      (value_loop-Within n key in_value [] (span isblank q).1 (omega arith)) tt

pair_line-Within : (n : ℕ) (s : Bytes) → length s ≤ suc n → Within n (pair_line s)
unfolding pair_line behind_key
pair_line-Within n s h =
    let p = (span iskey s).1 in
    let le = length-span iskey s in
    let le' = length-span isblank p in
    equals-Within n (span iskey s).0 (span isblank p).1 (omega arith)

pub parse_line-Within : (c : ℕ) (s : Bytes) → Within (length s) (parse_line c s)
unfolding parse_line
parse_line-Within c s =
    let n = length s in
    Within-if n (c == 0) bad _ tt (
      Within-if n (c == b'\n') (skipped s) _ (omega arith) (
        Within-if n (c == b'#' || c == b';') (comment_line (c ∷ s)) _
          (comment_line-Within n (c ∷ s) (omega arith))
          (Within-if n (c == b'[') (header_line s) (pair_line (c ∷ s))
            (header_line-Within n s (omega arith)) (pair_line-Within n (c ∷ s) (omega arith)))))

module _ (h : HashTable) where
  -- NULL, or a unit without freed pairs.
  abbrev pub IsResult : Parsed h → Type 0
  IsResult (parsed u) = AllLive h u
  IsResult malformed = Unit
  IsResult freed_memory = ⊥
  IsResult out_of_fuel = ⊥

  parse_lines-IsResult :
      (fuel : ℕ) (section : Bytes) (u : ServiceUnit h) (s : Bytes)
      → length s ≤ fuel
      → AllLive h u
      → IsResult (parse_lines h fuel section u s)
  unfolding parse_lines store
  parse_lines-IsResult fuel section u [] enough alive = alive
  parse_lines-IsResult zero section u (c ∷ s) enough alive = absurd (omega arith)
  parse_lines-IsResult (suc fuel) section u (c ∷ s) enough alive =
      by_line (parse_line c s) (parse_line-Within c s)
        (λ sec u' rest le alive'. parse_lines-IsResult fuel sec u' rest (omega arith) alive')
    where
      Later : Type 0
      Later =
          (sec : Bytes) (u' : ServiceUnit h) (rest : Bytes)
          → length rest ≤ length s
          → AllLive h u'
          → IsResult (parse_lines h fuel sec u' rest)

      stored :
          (key v rest : Bytes)
          → length rest ≤ length s
          → Later
          → IsResult (elim (store h section u key v) [
            | none ↦ freed_memory
            | some u' ↦ parse_lines h fuel section u' rest
          ])
      stored key v rest le rec =
          let (existed, u', done, values, alive') =
            unit_get_value-unit_update_value h u section key v (ltb 0 (length v)) alive in
          rw (store, done) (rec section u' rest le alive')

      in_section :
          (key v rest : Bytes) (empty : Bool)
          → length rest ≤ length s
          → Later
          → IsResult (elim empty [
            | true ↦ malformed
            | false ↦ elim (store h section u key v) [
              | none ↦ freed_memory
              | some u' ↦ parse_lines h fuel section u' rest
            ]
          ])
      in_section key v rest true le rec = tt
      in_section key v rest false le rec = stored key v rest le rec

      by_line :
          (l : Line)
          → Within (length s) l
          → Later
          → IsResult (elim l [
            | bad ↦ malformed
            | skipped rest ↦ parse_lines h fuel section u rest
            | header name rest ↦ parse_lines h fuel name u rest
            | pair key v rest ↦ elim (is_empty section) [
              | true ↦ malformed
              | false ↦ elim (store h section u key v) [
                | none ↦ freed_memory
                | some u' ↦ parse_lines h fuel section u' rest
              ]
            ]
          ])
      by_line bad le rec = tt
      by_line (skipped rest) le rec = rec section u rest le alive
      by_line (header name rest) le rec = rec name u rest le alive
      by_line (pair key v rest) le rec = in_section key v rest (is_empty section) le rec

  -- Whatever the text, parsing it ends with NULL or with a unit: the fuel, the text's length, is
  -- enough, no pair that was freed is used, and the unit has no freed pair.
  pub systemd_parse_unit_file-IsResult :
      (name txt : Bytes) → IsResult (systemd_parse_unit_file h name txt)
  unfolding systemd_parse_unit_file
  systemd_parse_unit_file-IsResult name txt =
      parse_lines-IsResult (length txt) [] (unit_create h name) txt (omega arith)
        (λ s k e. missing_live h (sym (unit_get_value-unit_create h name s k) ∙ e))
