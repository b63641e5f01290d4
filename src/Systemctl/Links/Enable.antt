-- ===== src/Systemctl/Links/Enable.antt =====
-- Enabling a service at a runlevel, against a description of the directory that is left.
use mathlib.Core.Bool.{◌||◌}
use sysvkit.Base.{
  ℕ, ◌≡◌, refl, sym, ap, ◌∙◌, subst, ◌⊎◌, inl, inr, Bool, true, false, not, ◌&&◌, List, [], ◌∷◌,
  ◌++◌, Bytes, bytes_eq_refl, bytes_eq, if◌then◌else◌, arith, All, All-append, Bool-cases, eexist,
}
use sysvkit.Systemctl.Links.{
  Target, ours, elsewhere, Entry, manip_entry, manip_scan, manip_finish, LinkResult, found_links,
  our_link, RcDir, service_manip_rl, link_name,
}

abbrev pub is_ours : Target → Bool
is_ours ours = true
is_ours _ = false

-- A link that leads somewhere, and that can be unlinked.
abbrev pub IsPlain : Entry → Type 0
IsPlain e = ((e.target ≡ ours) ⊎ (e.target ≡ elsewhere)) × (e.unlink_errno ≡ 0)

-- Whether the right link to the service is there.
unfoldable pub has_link : Bytes → List Entry → Bool
has_link name [] = false
has_link name (e ∷ es) = e.is_link && is_ours e.target && bytes_eq e.name name || has_link name es

-- What enabling leaves: entries that are no links, the service's links of the right name, and
-- others' links of other names.
unfoldable pub tidy : Bytes → List Entry → List Entry
tidy name [] = []
tidy name (e ∷ es) =
    let rest = tidy name es in
    if e.is_link
    then (if is_ours e.target
        then (if bytes_eq e.name name then e ∷ rest else rest)
        else if bytes_eq e.name name
        then rest
        else e ∷ rest)
    else e ∷ rest

-- Whether an entry that is no link has the name of the right link.
unfoldable pub has_file : Bytes → List Entry → Bool
has_file name [] = false
has_file name (e ∷ es) = not e.is_link && bytes_eq e.name name || has_file name es

-- The directory behind enabling: the right link is added where it is not there and its name is free.
unfoldable pub enabled_entries : Bytes → List Entry → List Entry
enabled_entries name es =
    if has_link name es || has_file name es
    then tidy name es
    else tidy name es ++ our_link name ∷ []

scan_enable :
    (name : Bytes) (stale : Bool) (es : List Entry) (found : Bool)
    → All IsPlain es
    → manip_scan false true name stale es 0 found
      ≡ record { ret = 0; found = found || has_link name es; left = tidy name es }
unfolding manip_scan manip_entry has_link tidy
scan_enable name stale [] found h = ground arith
scan_enable name stale (e ∷ es) found (h, hs) = ground (
  arith,
  scan_enable name stale es found hs,
  scan_enable name true es found hs,
  scan_enable name true es true hs,
  scan_enable name false es found hs,
)

-- A directory that can be opened, whose links all lead somewhere and can be unlinked.
pub record IsSound (dir : RcDir) : Type 0 where
  pub opens : dir.opendir_errno ≡ 0
  pub plain : All IsPlain dir.entries

-- symlinkat works, or fails with EEXIST where the name is not free.
abbrev pub IsLinkable : Bytes → RcDir → Type 0
IsLinkable name dir = dir.symlink_errno ≡ (if has_file name dir.entries then eexist else 0)

finish_enable :
    (name : Bytes) (es : List Entry)
    → manip_finish true name
        (if has_file name es then eexist else 0)
        (record { ret = 0; found = has_link name es; left = tidy name es })
      ≡ (found_links (has_link name es), enabled_entries name es)
unfolding manip_finish enabled_entries
finish_enable name es = ground arith

-- Enabling a service at a runlevel, in a directory that can be opened, whose entries can be unlinked
-- and lead to the service or elsewhere, none of them nowhere, and in which symlinkat works, or fails
-- with EEXIST where an entry that is no link has the right link's name: it removes the service's links of a wrong name and others' links of the right name, keeps
-- all else in its order, and adds the right link at the end where it is not there, unless an entry
-- that is no link has its name. The result is whether the right link was there, also where links of a
-- wrong name were found.
pub service_manip_rl_enable :
    (service : Bytes) (rl : ℕ) (dir : RcDir)
    → IsSound dir
    → IsLinkable (link_name service rl) dir
    → service_manip_rl service rl false true dir ≡ (
      found_links (has_link (link_name service rl) dir.entries),
      enabled_entries (link_name service rl) dir.entries,
    )
unfolding service_manip_rl
service_manip_rl_enable service rl dir s linkable =
    rw (s.opens, scan_enable (link_name service rl) dir.junk dir.entries false s.plain, linkable)
      (finish_enable (link_name service rl) dir.entries)

has_file-tidy : (name : Bytes) (es : List Entry) → has_file name (tidy name es) ≡ has_file name es
unfolding tidy has_file
has_file-tidy name [] = refl
has_file-tidy name (e ∷ es) = ground (arith, has_file-tidy name es)

tidy-tidy : (name : Bytes) (es : List Entry) → tidy name (tidy name es) ≡ tidy name es
unfolding tidy
tidy-tidy name [] = refl
tidy-tidy name (e ∷ es) = ground (arith, tidy-tidy name es)

has_link-tidy : (name : Bytes) (es : List Entry) → has_link name (tidy name es) ≡ has_link name es
unfolding tidy has_link
has_link-tidy name [] = refl
has_link-tidy name (e ∷ es) = ground (arith, has_link-tidy name es)

has_link_added : (name : Bytes) (es : List Entry) → has_link name (es ++ our_link name ∷ []) ≡ true
unfolding has_link
has_link_added name [] = rw (bytes_eq_refl name)
has_link_added name (e ∷ es) = ground (arith, has_link_added name es)

has_file_added :
    (name : Bytes) (es : List Entry) → has_file name (es ++ our_link name ∷ []) ≡ has_file name es
unfolding has_file
has_file_added name [] = refl
has_file_added name (e ∷ es) = ground (arith, has_file_added name es)

tidy_added :
    (name : Bytes) (es : List Entry)
    → tidy name (es ++ our_link name ∷ []) ≡ tidy name es ++ our_link name ∷ []
unfolding tidy
tidy_added name [] = rw (bytes_eq_refl name)
tidy_added name (e ∷ es) = ground (arith, tidy_added name es)

IsPlain-tidy : (name : Bytes) (es : List Entry) → All IsPlain es → All IsPlain (tidy name es)
unfolding tidy
IsPlain-tidy name [] h = tt
IsPlain-tidy name (e ∷ es) (h, hs) = ground (arith, IsPlain-tidy name es hs)

enabled_has_link :
    (name : Bytes) (es : List Entry)
    → has_file name es ≡ false
    → has_link name (enabled_entries name es) ≡ true
unfolding enabled_entries
enabled_has_link name es free = elim (Bool-cases (has_link name es)) [
  | inl there ↦ rw there (has_link-tidy name es ∙ there)
  | inr absent ↦ rw (absent, free) (has_link_added name (tidy name es))
]

enabled_tidy :
    (name : Bytes) (es : List Entry) → tidy name (enabled_entries name es) ≡ enabled_entries name es
unfolding enabled_entries
enabled_tidy name es = elim (Bool-cases (has_link name es || has_file name es)) [
  | inl taken ↦ rw taken (tidy-tidy name es)
  | inr free ↦
      rw free
        (tidy_added name (tidy name es) ∙ ap (λ l. l ++ our_link name ∷ []) (tidy-tidy name es))
]

enabled_has_file :
    (name : Bytes) (es : List Entry) → has_file name (enabled_entries name es) ≡ has_file name es
unfolding enabled_entries
enabled_has_file name es = elim (Bool-cases (has_link name es || has_file name es)) [
  | inl taken ↦ rw taken (has_file-tidy name es)
  | inr free ↦ rw free (has_file_added name (tidy name es) ∙ has_file-tidy name es)
]

enabled-IsPlain :
    (name : Bytes) (es : List Entry) → All IsPlain es → All IsPlain (enabled_entries name es)
unfolding enabled_entries
enabled-IsPlain name es h = elim (Bool-cases (has_link name es || has_file name es)) [
  | inl taken ↦ rw taken (IsPlain-tidy name es h)
  | inr free ↦ rw free (
      All-append IsPlain (tidy name es) (our_link name ∷ []) (IsPlain-tidy name es h)
        ((inl refl, refl), tt))
]

-- Where no other entry has the link's name, enabling is idempotent: in the directory that it leaves,
-- it finds the link and changes nothing.
pub service_manip_rl_enable_twice :
    (service : Bytes) (rl : ℕ) (dir : RcDir) {r : LinkResult} {es : List Entry}
    → IsSound dir
    → dir.symlink_errno ≡ 0
    → has_file (link_name service rl) dir.entries ≡ false
    → service_manip_rl service rl false true dir ≡ (r, es)
    → service_manip_rl service rl false true (record dir { entries = es }) ≡ (found_links true, es)
service_manip_rl_enable_twice service rl dir {r} {es} s works free h =
    let name = link_name service rl in
    let linkable : IsLinkable name dir = rw free works in
    let same : enabled_entries name dir.entries ≡ es =
      ap (λ p. p.1) (sym (service_manip_rl_enable service rl dir s linkable) ∙ h) in
    let sound : IsSound (record dir { entries = es }) = record {
      opens = s.opens;
      plain = subst (All IsPlain) same (enabled-IsPlain name dir.entries s.plain);
    } in
    let still : has_file name es ≡ false =
      ap (has_file name) (sym same) ∙ enabled_has_file name dir.entries ∙ free in
    service_manip_rl_enable service rl (record dir { entries = es }) sound (rw still works)
    ∙ rw (← same) (
        again name (enabled_entries name dir.entries) (enabled_has_link name dir.entries free)
          (enabled_tidy name dir.entries))
  where
    again :
        (name : Bytes) (es : List Entry)
        → has_link name es ≡ true
        → tidy name es ≡ es
        → ◌≡◌ {A = LinkResult × List Entry}
            (found_links (has_link name es), enabled_entries name es)
            (found_links true, es)
    again name es h t = unfold enabled_entries in rw (h, t)
