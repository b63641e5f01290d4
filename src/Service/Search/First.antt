-- ===== src/Service/Search/First.antt =====
-- Which file service_find of src/sysvrun/service.c takes a service from.
use sysvkit.Base.{
  ℕ, ◌≡◌, ◌≢◌, ◌↔◌, ◌⊎◌, inl, inr, refl, sym, ap, subst, ◌∙◌, ◌<◌, enoent, Bool, true, false, none,
  some, List, [], ◌∷◌, ◌++◌, Bytes, leb, length, All, Bool-cases, Option-cases, arith,
}
use sysvkit.Table.{HashTable}
use sysvkit.Service.Types.{Service}
use sysvkit.Service.Settings.{Loaded, loaded, rejected, broken, unfinished, service_from_unit_file}
use sysvkit.Sysvinit.{Script, refused, embedded, embedded_unit}
use sysvkit.Service.Settled.{Settled, IsWellFormed, service_from_unit_file-Settled}
use sysvkit.Service.Convert.{is_script, sysvinit_parse_init_script, service_from_file}
use sysvkit.Service.Search.{
  text_from_file, enotdir, eoverflow, Files, Search, no_file, from_file, path_in, is_missing,
  load_service, find_in, suffix_for, systemd_unit_path, sysvinit_script_path, systemd_find_service,
  sysvinit_find_service, or_else, service_find,
}

service_from_file-Settled :
    (h : HashTable) (ends_with : Bytes → Bytes → Bool) (errno : ℕ) (name txt : Bytes)
    → Settled IsWellFormed (service_from_file h ends_with errno name txt)
unfolding service_from_file sysvinit_parse_init_script
service_from_file-Settled h ends_with errno name txt =
    elim (Bool-cases (is_script h ends_with txt)) [
      | inl script ↦ rw script (go (embedded_unit name txt))
      | inr unit ↦ rw unit (service_from_unit_file-Settled h ends_with errno name txt)
    ]
  where
    go :
        (e : Script)
        → Settled IsWellFormed (elim e [
          | refused n ↦ rejected
          | embedded unit ↦ service_from_unit_file h ends_with errno name unit
        ])
    go (refused n) = tt
    go (embedded unit) = service_from_unit_file-Settled h ends_with errno name unit

module _ (h : HashTable) (ends_with : Bytes → Bytes → Bool) (files : Files) where
  -- A path that stat finds nothing at: ENOENT or ENOTDIR.
  abbrev pub IsMissing : Bytes → Type 0
  IsMissing path =
      (length path < 1024) × ((files.stat path ≡ some enoent) ⊎ (files.stat path ≡ some enotdir))

  -- A path that stat finds something at.
  abbrev pub IsThere : Bytes → Type 0
  IsThere path = (length path < 1024) × (files.stat path ≡ none)

  -- The file for a name that is first in a table of directories.
  abbrev pub IsFirst : (root name suffix : Bytes) → List Bytes → Bytes → Type 0
  IsFirst root name suffix dirs path =
      (before : List Bytes) × (dir : Bytes) × (after : List Bytes) × (dirs ≡ before ++ dir ∷ after)
      × All (λ d. IsMissing (path_in root d name suffix)) before
      × (path ≡ path_in root dir name suffix)
      × IsThere path

  -- A service is what the first file gives.
  abbrev pub IsFoundIn : (root name suffix : Bytes) → List Bytes → Service → Type 0
  IsFoundIn root name suffix dirs svc =
      (path : Bytes) × IsFirst root name suffix dirs path
      × (load_service h ends_with files name path ≡ loaded svc)

  module _ (root name suffix : Bytes) where
    abbrev at : Bytes → Bytes
    at dir = path_in root dir name suffix

    abbrev find : List Bytes → Search
    find dirs = find_in h ends_with files root name suffix dirs

    abbrev load : Bytes → Loaded Service
    load path = load_service h ends_with files name path

    fits : (dir : Bytes) → length (at dir) < 1024 → leb 1024 (length (at dir)) ≡ false
    fits dir short = ground arith

    missing_errno : (e : ℕ) → is_missing e ≡ true → (e ≡ enoent) ⊎ (e ≡ enotdir)
    unfolding is_missing
    missing_errno e m = ground arith

    find_in-there :
        (dir : Bytes) (dirs : List Bytes)
        → IsThere (at dir)
        → find (dir ∷ dirs) ≡ from_file (load (at dir))
    unfolding find_in load_service
    find_in-there dir dirs (short, there) = rw (find_in, fits dir short, there) refl

    find_in-missing :
        (dir : Bytes) (dirs : List Bytes) → IsMissing (at dir) → find (dir ∷ dirs) ≡ find dirs
    unfolding find_in
    find_in-missing dir dirs (short, inl missing) = rw (find_in, fits dir short, missing) refl
    find_in-missing dir dirs (short, inr missing) = rw (find_in, fits dir short, missing) refl

    -- A directory has no such file, has it, or ends the search without a file.
    find_in-cases :
        (dir : Bytes) (dirs : List Bytes)
        → IsMissing (at dir) ⊎ (IsThere (at dir) ⊎ ((e : ℕ) × (find (dir ∷ dirs) ≡ no_file e)))
    unfolding find_in
    find_in-cases dir dirs = elim (Bool-cases (leb 1024 (length (at dir)))) [
      | inl long ↦ inr (inr (eoverflow, rw (find_in, long) refl))
      | inr short ↦ elim (Option-cases (files.stat (at dir))) [
        | inl there ↦ inr (inl (ground arith, there))
        | inr (e, s) ↦ elim (Bool-cases (is_missing e)) [
          | inl m ↦ elim (missing_errno e m) [
            | inl is ↦ inl (ground arith, inl (s ∙ ap some is))
            | inr is ↦ inl (ground arith, inr (s ∙ ap some is))
          ]
          | inr m ↦ inr (inr (e, rw (find_in, short, s, m) refl))
        ]
      ]
    ]

    -- What a search finds is what the first file gives.
    find_in-IsFirst :
        (dirs : List Bytes) (r : Loaded Service)
        → find dirs ≡ from_file r
        → (path : Bytes) × IsFirst root name suffix dirs path × (load path ≡ r)
    unfolding find_in
    find_in-IsFirst [] r e = cc
    find_in-IsFirst (dir ∷ dirs) r e = elim (find_in-cases dir dirs) [
      | inl missing ↦
          let (path, (before, d, after, split, all, is, there), gives) =
            find_in-IsFirst dirs r (sym (find_in-missing dir dirs missing) ∙ e) in
          (
            path,
            (dir ∷ before, d, after, ap (λ l. dir ∷ l) split, (missing, all), is, there),
            gives,
          )
      | inr (inl there) ↦
          let same : from_file (load (at dir)) ≡ from_file r =
            sym (find_in-there dir dirs there) ∙ e in
          (at dir, ([], dir, dirs, refl, tt, refl, there), cc)
      | inr (inr (n, none_there)) ↦ cc
    ]

    find_in-split :
        (before : List Bytes) (dir : Bytes) (after : List Bytes)
        → All (λ d. IsMissing (at d)) before
        → IsThere (at dir)
        → find (before ++ dir ∷ after) ≡ from_file (load (at dir))
    find_in-split [] dir after all there = find_in-there dir after there
    find_in-split (d ∷ before) dir after (missing, all) there =
        find_in-missing d _ missing ∙ find_in-split before dir after all there

    find_in-found :
        (dirs : List Bytes) (path : Bytes)
        → IsFirst root name suffix dirs path
        → find dirs ≡ from_file (load path)
    find_in-found dirs path (before, dir, after, split, all, is, there) =
        rw (split, is) (find_in-split before dir after all (subst IsThere is there))

    -- A search gives a service exactly if the first file does.
    find_in-loaded :
        (dirs : List Bytes) (svc : Service)
        → (find dirs ≡ from_file (loaded svc)) ↔ IsFoundIn root name suffix dirs svc
    find_in-loaded dirs svc = (
      find_in-IsFirst dirs (loaded svc),
      λ (path, first, gives). find_in-found dirs path first ∙ ap from_file gives,
    )

  -- No search uses freed memory or runs out of fuel.
  abbrev IsSettled : Search → Type 0
  IsSettled (no_file e) = Unit
  IsSettled (from_file r) = Settled IsWellFormed r

  load_service-Settled :
      (name path : Bytes) → Settled IsWellFormed (load_service h ends_with files name path)
  unfolding load_service
  load_service-Settled name path =
      elim (text_from_file (files.file path))
        as (λ t. Settled IsWellFormed (elim t [
          | none ↦ rejected
          | some txt ↦ service_from_file h ends_with (files.file path).errno name txt
        ])) [
          | none ↦ tt
          | some txt ↦ service_from_file-Settled h ends_with (files.file path).errno name txt
        ]

  find_in-IsSettled :
      (root name suffix : Bytes) (dirs : List Bytes)
      → IsSettled (find_in h ends_with files root name suffix dirs)
  find_in-IsSettled root name suffix dirs =
      go (find_in h ends_with files root name suffix dirs) refl
    where
      go : (s : Search) → find_in h ends_with files root name suffix dirs ≡ s → IsSettled s
      go (no_file e) q = tt
      go (from_file r) q =
          let (path, first, gives) = find_in-IsFirst root name suffix dirs r q in
          subst (Settled IsWellFormed) gives (load_service-Settled name path)

  or_else-loaded :
      (a b : Search) (svc : Service)
      → IsSettled a
      → (or_else h ends_with files a b ≡ from_file (loaded svc)) ↔ (
          (a ≡ from_file (loaded svc))
          ⊎ (((s : Service) → a ≢ from_file (loaded s)) × (b ≡ from_file (loaded svc))))
  unfolding or_else
  or_else-loaded (no_file e) b svc ok =
      (λ q. inr (λ s. λ p. cc, q), λ w. elim w [ inl q ↦ cc | inr (n, q) ↦ q ])
  or_else-loaded (from_file (loaded s)) b svc ok =
      (λ q. inl q, λ w. elim w [ inl q ↦ q | inr (n, q) ↦ absurd (n s refl) ])
  or_else-loaded (from_file rejected) b svc ok =
      (λ q. inr (λ s. λ p. cc, q), λ w. elim w [ inl q ↦ cc | inr (n, q) ↦ q ])
  or_else-loaded (from_file broken) b svc ok = absurd ok
  or_else-loaded (from_file unfinished) b svc ok = absurd ok

  -- A service is found exactly if it is what the first file for the name in the directories of
  -- units gives, or if no service is found there and it is what the first one in the directories of
  -- scripts gives. First is a file that stat finds, where the paths in the directories before it
  -- are shorter than the buffer and are missing by ENOENT or ENOTDIR; its own path is shorter, too.
  pub service_find-loaded :
      (root name : Bytes) (svc : Service)
      → (service_find h ends_with files root name ≡ from_file (loaded svc)) ↔ (
          IsFoundIn root name (suffix_for h ends_with files name) systemd_unit_path svc
          ⊎ (((s : Service)
                → ¬ IsFoundIn root name (suffix_for h ends_with files name) systemd_unit_path s)
              × IsFoundIn root name [] sysvinit_script_path svc))
  unfolding service_find systemd_find_service sysvinit_find_service
  service_find-loaded root name svc =
      let suffix = suffix_for h ends_with files name in
      let units = find_in-loaded root name suffix systemd_unit_path in
      let scripts = find_in-loaded root name [] sysvinit_script_path in
      let (to, from) =
        or_else-loaded (find_in h ends_with files root name suffix systemd_unit_path)
          (find_in h ends_with files root name [] sysvinit_script_path) svc
          (find_in-IsSettled root name suffix systemd_unit_path) in
      (
        λ q. elim (to q) [
          | inl p ↦ inl ((units svc).0 p)
          | inr (n, p) ↦ inr (λ s f. n s ((units s).1 f), (scripts svc).0 p)
        ],
        λ w. elim w [
          | inl f ↦ from (inl ((units svc).1 f))
          | inr (n, f) ↦ from (inr (λ s p. n s ((units s).0 p), (scripts svc).1 f))
        ],
      )
