-- ===== src/Service/Search.antt =====
-- The search for a service by its name: service_find and service_from_file of src/sysvrun/service.c,
-- systemd_find_service of systemd.c, sysvinit_find_service of sysvinit.c, and text_from_file of
-- src/common/text.c. A path is written by snprintf, which also fails with EOVERFLOW where the length is
-- no int.
pub mod First
use mathlib.Core.Bool.{◌||◌}
use sysvkit.Base.{
  ℕ, Bool, false, Option, none, some, List, [], ◌∷◌, ◌++◌, Bytes, codes, ◌==◌, leb, if◌then◌else◌,
  length, enoent,
}
use sysvkit.Table.{HashTable}
use sysvkit.Systemd.{dot_service}
use sysvkit.Service.Types.{Service}
use sysvkit.Service.Settings.{Loaded, loaded, rejected, broken, unfinished}
use sysvkit.Service.Convert.{service_from_file}

abbrev pub enotdir : ℕ
enotdir = 20

abbrev pub eoverflow : ℕ
eoverflow = 75

-- A file by what the system answers: the descriptor, none for -1; whether fstat works; the bytes
-- that are read, of as many as fstat gave; and errno when they have been read.
pub record File : Type 0 where
  pub fd : Option ℕ
  pub fstat_ok : Bool
  pub bytes : Option Bytes
  pub errno : ℕ

-- What stat says of a path (none for 0, or errno), and the file there.
pub record Files : Type 0 where
  pub stat : Bytes → Option ℕ
  pub file : Bytes → File

-- open(path, O_RDONLY) < 1
unfoldable pub is_open : Option ℕ → Bool
is_open none = false
is_open (some fd) = leb 1 fd

unfoldable pub text_from_file : File → Option Bytes
unfolding is_open
text_from_file f = if is_open f.fd then (if f.fstat_ok then f.bytes else none) else none

abbrev pub systemd_unit_path : List Bytes
systemd_unit_path =
    codes "/etc/systemd/system"
    ∷ codes "/run/systemd/system"
    ∷ codes "/usr/lib/systemd/system"
    ∷ codes "."
    ∷ []

abbrev pub sysvinit_script_path : List Bytes
sysvinit_script_path = codes "/etc/init.d" ∷ codes "." ∷ []

-- NULL with errno where no file was tried, or what the file gives.
pub data Search : Type 0 where
  no_file : ℕ → Search
  from_file : Loaded Service → Search

-- "%s%s/%s%s"
abbrev pub path_in : (root dir name suffix : Bytes) → Bytes
path_in root dir name suffix = root ++ dir ++ codes "/" ++ name ++ suffix

-- errno == ENOENT || errno == ENOTDIR
unfoldable pub is_missing : ℕ → Bool
is_missing e = e == enoent || e == enotdir

module _ (h : HashTable) (ends_with : Bytes → Bytes → Bool) (files : Files) where
  -- service_from_file, by the path.
  unfoldable pub load_service : Bytes → Bytes → Loaded Service
  load_service name path = elim (text_from_file (files.file path)) [
    | none ↦ rejected
    | some txt ↦ service_from_file h ends_with (files.file path).errno name txt
  ]

  -- The loop over a table of directories.
  unfoldable pub find_in : (root name suffix : Bytes) → List Bytes → Search
  unfolding is_missing
  find_in root name suffix [] = no_file enoent
  find_in root name suffix (dir ∷ dirs) =
      let later = find_in root name suffix dirs in
      let path = path_in root dir name suffix in
      if leb 1024 (length path) then no_file eoverflow else elim (files.stat path) [
        | none ↦ from_file (load_service name path)
        | some e ↦ if is_missing e then later else no_file e
      ]

  abbrev pub suffix_for : Bytes → Bytes
  suffix_for name = if ends_with name dot_service then [] else dot_service

  unfoldable pub systemd_find_service : (root name : Bytes) → Search
  systemd_find_service root name = find_in root name (suffix_for name) systemd_unit_path

  unfoldable pub sysvinit_find_service : (root name : Bytes) → Search
  sysvinit_find_service root name = find_in root name [] sysvinit_script_path

  -- Behind the first search: any NULL goes on to the second.
  unfoldable pub or_else : Search → Search → Search
  or_else (no_file e) second = second
  or_else (from_file (loaded svc)) second = from_file (loaded svc)
  or_else (from_file rejected) second = second
  or_else (from_file broken) second = from_file broken
  or_else (from_file unfinished) second = from_file unfinished

  unfoldable pub service_find : (root name : Bytes) → Search
  service_find root name =
      or_else (systemd_find_service root name) (sysvinit_find_service root name)
