-- ===== src/Sysvinit/RoundTrip.antt =====
-- The unit file that an init script embeds is the one that is read from it.
use sysvkit.Base.{
  ◌<◌, ◌≡◌, refl, ap, true, Option, some, List, [], ◌∷◌, ◌++◌, append_assoc, Bytes, codes, bytes_eq,
  span-append, Stops, length, replicate, All, arith,
}
use sysvkit.Text.{in_line, pattern}
use sysvkit.Text.Lines.{IsLine, unlines}
use sysvkit.Text.Search.{text_first_line_equals, text_next_line_equals, text_next_line_prefix}
use sysvkit.Text.Search.Skip.{
  IsOther, first_line_where-unlines, next_line_where-unlines, next_line_where-prefix,
  between-append, unlines-append,
}
use sysvkit.Systemd.{isblank}
use sysvkit.Sysvinit.{
  lsb_begin_init_info, lsb_end_init_info, lsb_provides, begin_embed, end_embed, embedded, provides,
  unit_behind, unit_of_provider, embedded_unit, padded, field, block_lines, exec_line, head_lines,
  script_text,
}
use sysvkit.Sysvinit.ScriptLines.{
  IsLine-append, literal, Description, block_lines-IsOther, exec_line-IsOther,
}

-- The text from a line on, in front of any text.
unlines-middle :
    (ls : List Bytes) (str : Bytes) (more : List Bytes) (t : Bytes)
    → unlines (ls ++ (str ∷ more)) ++ t ≡ unlines ls ++ (str ++ (b'\n' ∷ (unlines more ++ t)))
unlines-middle ls str more t =
    rw
      (
        unlines-append ls (str ∷ more),
        append_assoc (unlines ls) (str ++ (b'\n' ∷ unlines more)) t,
        append_assoc str (b'\n' ∷ unlines more) t,
      )
      refl

next_equals :
    (str b : Bytes) (ls : List Bytes) (rest : Bytes)
    → IsLine str
    → 0 < length str
    → All (IsOther str) ls
    → text_next_line_equals
        (record { beg = b; end = b'\n' ∷ (unlines ls ++ (str ++ (b'\n' ∷ rest))) })
        str
        0
      ≡ some (record { beg = str ++ (b'\n' ∷ rest); end = b'\n' ∷ rest })
unfolding text_next_line_equals pattern
next_equals str b ls rest hs h os = next_line_where-unlines str ls rest hs h os

-- The unit file behind the Provides line.
unit_behind-lines :
    (b : Bytes) (block gap unit : List Bytes)
    → All (IsOther lsb_end_init_info) block
    → All (IsOther begin_embed) gap
    → All (IsOther end_embed) unit
    → unit_behind (record {
      beg = b;
      end =
          b'\n'
          ∷ (unlines (block ++ (lsb_end_init_info ∷ (gap ++ (begin_embed ∷ []))))
              ++ (unlines unit ++ (end_embed ++ (b'\n' ∷ []))));
    })
      ≡ embedded (unlines unit)
unfolding unit_behind in_line
unit_behind-lines b block gap unit hb hg hu =
    let z = unlines unit ++ (end_embed ++ (b'\n' ∷ [])) in
    rw
      (
        unlines-middle block lsb_end_init_info (gap ++ (begin_embed ∷ [])) z,
        unit_behind,
        next_equals lsb_end_init_info b block (unlines (gap ++ (begin_embed ∷ [])) ++ z)
            (literal lsb_end_init_info refl) (omega arith) hb,
        unlines-middle gap begin_embed [] z,
        next_equals begin_embed
            (lsb_end_init_info ++ (b'\n' ∷ (unlines gap ++ (begin_embed ++ (b'\n' ∷ z))))) gap z
            (literal begin_embed refl) (omega arith) hg,
      )
      (rw
        (
          next_equals end_embed (begin_embed ++ (b'\n' ∷ z)) unit [] (literal end_embed refl)
              (omega arith) hu,
          between-append (unlines unit) (end_embed ++ (b'\n' ∷ [])),
        )
        refl)

provides_refl : (name : Bytes) → provides name name ≡ true
unfolding provides
provides_refl [] = refl
provides_refl (c ∷ name) = ground (arith, provides_refl name)

-- The blanks behind Provides.
abbrev provides_blanks : Bytes
provides_blanks = replicate 13 b' '

-- The Provides line names the service.
unit_of_provider-field :
    (name rest : Bytes)
    → Stops isblank name
    → unit_of_provider name (record {
      beg = lsb_provides ++ ((provides_blanks ++ name) ++ (b'\n' ∷ rest));
      end = b'\n' ∷ rest;
    })
      ≡ unit_behind (record {
        beg = lsb_provides ++ ((provides_blanks ++ name) ++ (b'\n' ∷ rest));
        end = b'\n' ∷ rest;
      })
unfolding unit_of_provider
unit_of_provider-field name rest st =
    rw
      (
        unit_of_provider,
        between-append (lsb_provides ++ (provides_blanks ++ name)) (b'\n' ∷ rest),
        span-append isblank provides_blanks name
            (
              refl,
              (
                refl,
                (
                  refl,
                  (
                    refl,
                    (refl, (refl, (refl, (refl, (refl, (refl, (refl, (refl, (refl, tt))))))))),
                  ),
                ),
              ),
            )
            st,
        provides_refl name,
      )
      refl

-- The lines behind Provides, and the text from there on.
abbrev pub tail_text : Bytes → Bytes → List Bytes → List Bytes → Option Bytes → List Bytes → Bytes
tail_text self name required should description unit =
    unlines (
      block_lines required should description
      ++ (lsb_end_init_info ∷ (([] ∷ exec_line self name ∷ [] ∷ []) ++ (begin_embed ∷ []))))
    ++ (unlines unit ++ (end_embed ++ (b'\n' ∷ [])))

script_text-lines :
    (self name : Bytes) (required should : List Bytes) (description : Option Bytes)
    (unit : List Bytes)
    → script_text self name required should description (unlines unit)
      ≡ unlines (codes "#!/bin/sh" ∷ [] ∷ [])
        ++ (lsb_begin_init_info
            ++ (b'\n'
                ∷ (lsb_provides
                    ++ ((provides_blanks ++ name)
                        ++ (b'\n' ∷ tail_text self name required should description unit)))))
unfolding script_text head_lines field padded
script_text-lines self name required should description unit =
    let u = unlines (
      block_lines required should description
      ++ (lsb_end_init_info ∷ [] ∷ exec_line self name ∷ [] ∷ begin_embed ∷ [])) in
    let z = unlines unit ++ (end_embed ++ (b'\n' ∷ [])) in
    ap
      (λ t.
        unlines (codes "#!/bin/sh" ∷ [] ∷ [])
        ++ (lsb_begin_init_info ++ (b'\n' ∷ (lsb_provides ++ (provides_blanks ++ t)))))
      (append_assoc name (b'\n' ∷ u) z)

first_begin :
    (rest : Bytes)
    → text_first_line_equals
        (unlines (codes "#!/bin/sh" ∷ [] ∷ []) ++ (lsb_begin_init_info ++ (b'\n' ∷ rest)))
        lsb_begin_init_info
        0
      ≡ some (record { beg = lsb_begin_init_info ++ (b'\n' ∷ rest); end = b'\n' ∷ rest })
unfolding text_first_line_equals pattern in_line bytes_eq
first_begin rest =
    first_line_where-unlines lsb_begin_init_info (codes "#!/bin/sh" ∷ [] ∷ []) rest
      (literal lsb_begin_init_info refl) (omega arith)
      ((literal (codes "#!/bin/sh") refl, refl), ((tt, refl), tt))

next_provides :
    (b l rest : Bytes)
    → IsLine l
    → text_next_line_prefix
        (record { beg = b; end = b'\n' ∷ (lsb_provides ++ (l ++ (b'\n' ∷ rest))) })
        lsb_provides
        0
      ≡ some (record { beg = lsb_provides ++ (l ++ (b'\n' ∷ rest)); end = b'\n' ∷ rest })
unfolding text_next_line_prefix pattern in_line
next_provides b l rest hl =
    next_line_where-prefix lsb_provides l rest (literal lsb_provides refl) hl (omega arith)

-- The unit file that an init script embeds is found in it, byte by byte, if the service's name does not
-- begin with a blank, no name, path or description has a newline or a NUL in it, and no line of the
-- unit file is the one that ends it.
pub embedded_unit-script_text :
    (self name : Bytes) (required should : List Bytes) (description : Option Bytes)
    (unit : List Bytes)
    → IsLine self
    → IsLine name
    → Stops isblank name
    → All IsLine required
    → All IsLine should
    → Description description
    → All (IsOther end_embed) unit
    → embedded_unit name (script_text self name required should description (unlines unit))
      ≡ embedded (unlines unit)
unfolding embedded_unit in_line bytes_eq
embedded_unit-script_text self name required should description unit ls ln st lr lsh ld hu =
    let r = tail_text self name required should description unit in
    let p = lsb_provides ++ ((provides_blanks ++ name) ++ (b'\n' ∷ r)) in
    rw
      (
        script_text-lines self name required should description unit,
        embedded_unit,
        first_begin p,
        next_provides (lsb_begin_init_info ++ (b'\n' ∷ p)) (provides_blanks ++ name) r
            (IsLine-append provides_blanks name (literal provides_blanks refl) ln),
        unit_of_provider-field name r st,
      )
      (unit_behind-lines p (block_lines required should description)
        ([] ∷ exec_line self name ∷ [] ∷ []) unit
        (block_lines-IsOther required should description lr lsh ld)
        ((tt, refl), (exec_line-IsOther self name ls ln, ((tt, refl), tt))) hu)
