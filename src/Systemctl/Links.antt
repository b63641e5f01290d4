-- ===== src/Systemctl/Links.antt =====
-- service_manip_rl and service_manip of src/systemctl/service.c, and the calls of it that enable,
-- disable and ask. A directory is the list of its entries in the order of readdir; what the system
-- answers for an entry stands in the entry.
pub mod Enable
pub mod Query
use mathlib.Core.Bool.{◌||◌}
use sysvkit.Base.{
  ℕ, zero, suc, ◌+◌, Bool, true, false, not, ◌&&◌, Option, none, some, List, [], ◌∷◌, ◌++◌, Bytes,
  codes, bytes_eq, leb, ◌==◌, if◌then◌else◌, eexist, enoent,
}

-- What fstatat reports of a link: whether it leads to the service's script, that it leads nowhere
-- (ENOENT), or another error.
pub data Target : Type 0 where
  ours : Target
  elsewhere : Target
  dangling : Target
  stat_error : ℕ → Target

-- A directory entry: its name, whether it is a symbolic link, where that leads, and the errno of
-- unlinking it (0 for success).
pub record Entry : Type 0 where
  pub name : Bytes
  pub is_link : Bool
  pub target : Target
  pub unlink_errno : ℕ

-- ret (0 or the errno of a failure), found, and the entries that are left, in order.
pub record Scan : Type 0 where
  pub ret : ℕ
  pub found : Bool
  pub left : List Entry

unfoldable pub start_link : Bytes → Bytes
start_link name = codes "S20" ++ name

unfoldable pub stop_link : Bytes → Bytes
stop_link name = codes "K80" ++ name

unfoldable pub link_name : Bytes → ℕ → Bytes
link_name service rl = if leb 2 rl && leb rl 5 then start_link service else stop_link service

-- unlinkat, where ENOENT is no failure: the errno that it sets `ret` to, or `ret` as it was.
abbrev pub unlink_ret : Entry → ℕ → ℕ
unlink_ret e ret = if e.unlink_errno == 0 || e.unlink_errno == enoent then ret else e.unlink_errno

abbrev pub unlinked : Entry → List Entry
unlinked e = if e.unlink_errno == 0 || e.unlink_errno == enoent then [] else e ∷ []

-- Where a link is taken to lead; `stale` is what the stat buffer holds where fstatat fails.
abbrev pub leads_to_us : Bool → Target → Bool
leads_to_us stale ours = true
leads_to_us stale elsewhere = false
leads_to_us stale dangling = stale
leads_to_us stale (stat_error n) = false

-- One entry that was stat'ed: ret, found, and what is left of the entry.
unfoldable pub manip_entry : Bool → Bool → Bytes → Bool → Entry → ℕ → Bool → ℕ × Bool × List Entry
manip_entry del add name true e ret found =
    if add && not (bytes_eq e.name name)
    then (unlink_ret e ret, found, unlinked e)
    else if del && not add
    then (unlink_ret e ret, true, unlinked e)
    else (ret, true, e ∷ [])
manip_entry del add name false e ret found =
    if add && bytes_eq e.name name
    then (unlink_ret e ret, found, unlinked e)
    else (ret, found, e ∷ [])

abbrev pub is_stat_error : Target → Bool
is_stat_error (stat_error n) = true
is_stat_error _ = false

abbrev pub stat_errno : Target → ℕ
stat_errno (stat_error n) = n
stat_errno _ = 0

-- The loop over readdir.
unfoldable pub manip_scan : Bool → Bool → Bytes → Bool → List Entry → ℕ → Bool → Scan
manip_scan del add name stale [] ret found = record { ret = ret; found = found; left = [] }
manip_scan del add name stale (e ∷ es) ret found =
    let ours = leads_to_us stale e.target in
    let done = manip_entry del add name ours e ret found in
    let skipped = manip_scan del add name stale es ret found in
    let rest = manip_scan del add name ours es done.0 done.1 in
    if not e.is_link
    then record skipped { left = e ∷ skipped.left }
    else if is_stat_error e.target
    then record { ret = stat_errno e.target; found = found; left = e ∷ es }
    else record rest { left = done.2 ++ rest.left }

-- A result and the directory after the call: -1 with errno, or found.
pub data LinkResult : Type 0 where
  failed : ℕ → LinkResult
  found_links : Bool → LinkResult

abbrev pub our_link : Bytes → Entry
our_link name = record { name = name; is_link = true; target = ours; unlink_errno = 0 }

-- After the loop: the new link, with the errno of symlinkat (0 for success), and the result.
unfoldable pub manip_finish : Bool → Bytes → ℕ → Scan → LinkResult × List Entry
manip_finish add name symlink_errno s =
    if add && not s.found && s.ret == 0
    then (if symlink_errno == 0
        then (found_links s.found, s.left ++ our_link name ∷ [])
        else if symlink_errno == eexist
        then (found_links s.found, s.left)
        else (failed symlink_errno, s.left))
    else if s.ret == 0
    then (found_links s.found, s.left)
    else (failed s.ret, s.left)

-- An rc directory: the errno of opendir (0 for success), its entries, the errno of the call of
-- symlinkat in it (0 for success), and what the stat buffer holds before the first fstatat.
pub record RcDir : Type 0 where
  pub opendir_errno : ℕ
  pub entries : List Entry
  pub symlink_errno : ℕ
  pub junk : Bool

unfoldable pub service_manip_rl : Bytes → ℕ → Bool → Bool → RcDir → LinkResult × List Entry
service_manip_rl service rl del add dir =
    let name = link_name service rl in
    if not (dir.opendir_errno == 0)
    then (failed dir.opendir_errno, dir.entries)
    else manip_finish add name dir.symlink_errno
        (manip_scan del add name dir.junk dir.entries 0 false)

-- The total over runlevels: an errno, or the number of levels with a link.
pub data Total : Type 0 where
  error : ℕ → Total
  count : ℕ → Total

abbrev pub add_level : Total → LinkResult → Total
add_level t (failed n) = error n
add_level (error m) (found_links b) = error m
add_level (count k) (found_links b) = count (if b then k + 1 else k)

-- The loop over runlevels, from `rl` on.
unfoldable pub manip_levels :
    Bytes → Bool → Bool → ℕ → List RcDir → Total → Total × List (List Entry)
manip_levels service del add rl [] t = (t, [])
manip_levels service del add rl (d ∷ ds) t =
    let one = service_manip_rl service rl del add d in
    let rest = manip_levels service del add (suc rl) ds (add_level t one.0) in
    (rest.0, one.1 ∷ rest.1)

-- `dirs` are the directories of runlevels 0 to 6.
unfoldable pub service_manip : Bytes → Bool → Bool → List RcDir → Total × List (List Entry)
service_manip service del add dirs = manip_levels service del add 0 dirs (count 0)

unfoldable pub service_is_enabled : Bytes → List RcDir → Total
service_is_enabled service dirs = (service_manip service false false dirs).0

unfoldable pub service_disable : Bytes → List RcDir → Total × List (List Entry)
service_disable service dirs = service_manip service true false dirs

unfoldable pub service_enable : Bytes → List RcDir → Total × List (List Entry)
service_enable service dirs = service_manip service false true dirs
