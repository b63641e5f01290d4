-- ===== src/Systemctl/Links/Query.antt =====
-- Disabling a service, and asking whether it is enabled.
use mathlib.Core.Bool.{◌||◌}
use sysvkit.Base.{
  ℕ, suc, ◌+◌, ◌≡◌, ap, ◌∙◌, Bool, true, false, ◌&&◌, List, [], ◌∷◌, Bytes, if◌then◌else◌, arith,
  All,
}
use sysvkit.Systemctl.Links.{
  Entry, manip_entry, manip_scan, manip_finish, found_links, RcDir, service_manip_rl, link_name,
  count, manip_levels, service_manip, service_is_enabled,
}
use sysvkit.Systemctl.Links.Enable.{is_ours, IsPlain, IsSound}

-- Whether any link leads to the service, and the entries without those links.
unfoldable pub any_ours : List Entry → Bool
any_ours [] = false
any_ours (e ∷ es) = e.is_link && is_ours e.target || any_ours es

unfoldable pub others : List Entry → List Entry
others [] = []
others (e ∷ es) = let rest = others es in if e.is_link && is_ours e.target then rest else e ∷ rest

scan_disable :
    (name : Bytes) (stale : Bool) (es : List Entry) (found : Bool)
    → All IsPlain es
    → manip_scan true false name stale es 0 found
      ≡ record { ret = 0; found = found || any_ours es; left = others es }
unfolding manip_scan manip_entry any_ours others
scan_disable name stale [] found h = ground arith
scan_disable name stale (e ∷ es) found (h, hs) = ground (
  arith,
  scan_disable name stale es found hs,
  scan_disable name true es true hs,
  scan_disable name false es found hs,
)

scan_query :
    (name : Bytes) (stale : Bool) (es : List Entry) (found : Bool)
    → All IsPlain es
    → manip_scan false false name stale es 0 found
      ≡ record { ret = 0; found = found || any_ours es; left = es }
unfolding manip_scan manip_entry any_ours
scan_query name stale [] found h = ground arith
scan_query name stale (e ∷ es) found (h, hs) = ground (
  arith,
  scan_query name stale es found hs,
  scan_query name true es true hs,
  scan_query name false es found hs,
)

-- Disabling at a runlevel removes every link to the service and nothing else; asking removes
-- nothing. Both report whether there was a link to the service, of whatever name.
pub service_manip_rl_disable :
    (service : Bytes) (rl : ℕ) (dir : RcDir)
    → IsSound dir
    → (service_manip_rl service rl true false dir
        ≡ (found_links (any_ours dir.entries), others dir.entries))
      × (service_manip_rl service rl false false dir
          ≡ (found_links (any_ours dir.entries), dir.entries))
unfolding service_manip_rl manip_finish
service_manip_rl_disable service rl dir s = (
  rw (s.opens, scan_disable (link_name service rl) dir.junk dir.entries false s.plain)
      (ground arith),
  rw (s.opens, scan_query (link_name service rl) dir.junk dir.entries false s.plain) (ground arith),
)

-- The number of directories that hold a link to the service.
unfoldable pub levels_with_link : List RcDir → ℕ
levels_with_link [] = 0
levels_with_link (d ∷ ds) = (if any_ours d.entries then 1 else 0) + levels_with_link ds

query_levels :
    (service : Bytes) (rl k : ℕ) (ds : List RcDir)
    → All IsSound ds
    → (manip_levels service false false rl ds (count k)).0 ≡ count (k + levels_with_link ds)
unfolding manip_levels levels_with_link
query_levels service rl k [] h = ground arith
query_levels service rl k (d ∷ ds) (h, hs) = ground (
  arith,
  (service_manip_rl_disable service rl d h).1,
  query_levels service (suc rl) k ds hs,
  query_levels service (suc rl) (k + 1) ds hs,
)

-- Asking whether a service is enabled counts the directories with a link to it, those of runlevels
-- 0, 1 and 6 and links that stop it included, not the runlevels 2 to 5 alone.
pub service_is_enabled_levels :
    (service : Bytes) (dirs : List RcDir)
    → All IsSound dirs
    → service_is_enabled service dirs ≡ count (levels_with_link dirs)
unfolding service_is_enabled service_manip
service_is_enabled_levels service dirs h = query_levels service 0 0 dirs h ∙ ap count (omega arith)
