-- ===== src/Command.antt =====
-- src/sysvrun/command.c: the command that a service's unit describes, and how it is executed. What the
-- surroundings answer (the environment of the process, the users and groups, the paths that a child
-- resolves) is a parameter.
pub mod Exec
pub mod Pid
pub mod Made
pub mod Privileges
mod Tests
use mathlib.Core.Bool.{◌||◌}
use sysvkit.Base.{
  ℕ, ◌+◌, ◌-◌, ◌*◌, Bool, true, false, not, ◌&&◌, Option, none, some, List, [], ◌∷◌, ◌++◌, Bytes,
  codes, bytes_eq, span, ◌==◌, ltb, leb, if◌then◌else◌, length,
}
use sysvkit.Text.{is_space}
use sysvkit.Table.{HashTable}
use sysvkit.UnitFile.{Value, value, missing, freed}
use sysvkit.Environment.{
  Environment, environment_clone, environment_put, environment_set, environment_remove_keys,
  environment_get, environment_list,
}
use sysvkit.Strlist.{strlist_from_delim, strlist_to_delim}
use sysvkit.Systemd.{systemd_split_quoted}
use sysvkit.Service.Settings.{Loaded, loaded, rejected, broken, unfinished, and_then, setting}

pub data ExecFlag : Type 0 where
  ef_at ef_dash ef_colon ef_plus ef_bang : ExecFlag

unfoldable pub prefix2flag : ℕ → Option ExecFlag
prefix2flag c =
    if c == b'@'
    then some ef_at
    else if c == b'-'
    then some ef_dash
    else if c == b':'
    then some ef_colon
    else if c == b'+'
    then some ef_plus
    else if c == b'!'
    then some ef_bang
    else none

-- The flags of a prefix, and the name behind it.
unfoldable pub split_prefix : Bytes → List ExecFlag × Bytes
split_prefix [] = ([], [])
split_prefix (c ∷ s) = elim (prefix2flag c) [
  | none ↦ ([], c ∷ s)
  | some flag ↦ let (flags, name) = split_prefix s in (flag ∷ flags, name)
]

abbrev pub is_at : ExecFlag → Bool
is_at ef_at = true
is_at _ = false

abbrev pub is_plus : ExecFlag → Bool
is_plus ef_plus = true
is_plus _ = false

-- flags & EF_AT, flags & EF_PLUS
abbrev pub has_flag : (ExecFlag → Bool) → List ExecFlag → Bool
has_flag is [] = false
has_flag is (f ∷ flags) = is f || has_flag is flags

pub record Passwd : Type 0 where
  pub pw_name : Bytes
  pub pw_uid : ℕ
  pub pw_dir : Bytes
  pub pw_shell : Bytes

-- strtol(value, &end, 8): the value of octal digits.
abbrev pub is_octal : ℕ → Bool
is_octal c = leb b'0' c && leb c b'7'

unfoldable pub octal_value : ℕ → Bytes → ℕ
octal_value n [] = n
octal_value n (c ∷ s) = octal_value (8 * n + (c - b'0')) s

-- Behind the sign: no number, more behind it, a negative one or one above 0777 is an error.
unfoldable pub read_mask : Bool → Bytes → Loaded ℕ
read_mask negative s =
    let (ds, end) = span is_octal s in
    let n = octal_value 0 ds in
    if length ds == 0 || not (length end == 0) || (negative && ltb 0 n) || ltb 511 n
    then rejected
    else loaded n

unfoldable pub read_signed_mask : Bytes → Loaded ℕ
read_signed_mask [] = rejected
read_signed_mask (c ∷ s) =
    if c == b'-'
    then read_mask true s
    else if c == b'+'
    then read_mask false s
    else read_mask false (c ∷ s)

unfoldable pub read_umask : Bytes → Loaded ℕ
read_umask v = read_signed_mask (span is_space v).1

-- A use of freed memory where there is none.
abbrev pub or_broken : {A : Type 0} → Option A → Loaded A
or_broken none = broken
or_broken (some a) = loaded a

module _ (h : HashTable) where
  -- Denv, Ulist, root and self_dir are set by sysvrun's options.
  pub record Surroundings : Type 0 where
    pub denv : Environment h
    pub ulist : List Bytes
    pub root : Bytes
    pub self_dir : Bytes
    pub getenv : Bytes → Option Bytes
    pub getpwnam : Bytes → Option Passwd
    pub getgrnam : Bytes → Option ℕ
    pub command_resolve_path :
        Option Bytes → Option Bytes → Environment h → Bytes → Bool → Option Bytes

  -- struct command; the service and the exit status are left out.
  pub record Command : Type 0 where
    pub path : Bytes
    pub rootdir : Option Bytes
    pub workdir : Bytes
    pub pidfile : Option Bytes
    pub args : List Bytes
    pub env : Environment h
    pub flags : List ExecFlag
    pub uid : ℕ
    pub gid : ℕ
    pub umask : ℕ

  -- environment_put and environment_set, whose results are not looked at.
  abbrev pub put_string : Environment h → Bytes → Loaded (Environment h)
  put_string env str = elim (environment_put h env str true) [
    | none ↦ broken
    | some (existed, env') ↦ loaded env'
  ]

  abbrev pub set_variable : Bytes → Bytes → Bool → Environment h → Loaded (Environment h)
  set_variable name v overwrite env = elim (environment_set h env name v overwrite) [
    | none ↦ broken
    | some (existed, env') ↦ loaded env'
  ]

  unfoldable pub put_strings : Environment h → List Bytes → Loaded (Environment h)
  put_strings env [] = loaded env
  put_strings env (str ∷ l) = and_then (put_string env str) (λ env'. put_strings env' l)

  unfoldable pub pass_variables :
      (Bytes → Option Bytes) → Environment h → List Bytes → Loaded (Environment h)
  pass_variables getenv env [] = loaded env
  pass_variables getenv env (key ∷ l) = elim (getenv key) [
    | none ↦ pass_variables getenv env l
    | some v ↦ and_then (set_variable key v true env) (λ env'. pass_variables getenv env' l)
  ]

  -- PATH, where it is set, begins with sysvrun's directory.
  unfoldable pub prepend_path : Bytes → Environment h → Loaded (Environment h)
  prepend_path self_dir env =
      setting env
        (λ v.
          set_variable (codes "PATH")
            (strlist_to_delim (self_dir ∷ strlist_from_delim v b':' false false) b':' true) true
            env)
        (environment_get h env (codes "PATH"))

  unfoldable pub prepare_environment : Surroundings → (Bytes → Value) → Loaded (Environment h)
  prepare_environment ctx service_key = and_then (or_broken (environment_clone h ctx.denv)) (λ env1.
      and_then
        (setting env1 (λ v. put_strings env1 (systemd_split_quoted v))
          (service_key (codes "Environment")))
        (λ env2.
          and_then
            (setting env2 (λ v. pass_variables ctx.getenv env2 (systemd_split_quoted v))
              (service_key (codes "PassEnvironment")))
            (λ env3.
              and_then
                (setting env3
                  (λ v. or_broken (environment_remove_keys h env3 (systemd_split_quoted v)))
                  (service_key (codes "UnsetEnvironment")))
                (λ env4.
                  and_then (or_broken (environment_remove_keys h env4 ctx.ulist))
                    (prepend_path ctx.self_dir)))))

  unfoldable pub below_root : Bytes → Value → Loaded (Option Bytes)
  below_root root v = setting none (λ dir. loaded (some (root ++ dir))) v

  -- The PID file, and the environment with its name.
  unfoldable pub find_pid_file :
      Surroundings
      → Option Bytes
      → Option Bytes
      → Environment h
      → Value
      → Loaded (Option Bytes × Environment h)
  find_pid_file ctx rootdir workdir env v =
      setting (none, env)
        (λ name. elim (ctx.command_resolve_path rootdir workdir env name false) [
          | none ↦ rejected
          | some path ↦
              and_then (set_variable (codes "PIDFILE") path true env)
                (λ env'. loaded (some path, env'))
        ])
        v

  -- The arguments: behind an @ without the first word, of which one must be left.
  unfoldable pub arguments : List ExecFlag → Bytes → List Bytes → Loaded (List Bytes)
  arguments flags first [] = if has_flag is_at flags then rejected else loaded (first ∷ [])
  arguments flags first (arg ∷ rest) =
      loaded (if has_flag is_at flags then arg ∷ rest else first ∷ arg ∷ rest)

  -- The variables of the user; they are set without overwrite.
  unfoldable pub set_user : Passwd → Environment h → Loaded (Environment h)
  set_user pw env = and_then (set_variable (codes "USER") pw.pw_name false env) (λ env1.
      and_then (set_variable (codes "LOGNAME") pw.pw_name false env1) (λ env2.
        and_then (set_variable (codes "HOME") pw.pw_dir false env2)
          (set_variable (codes "SHELL") pw.pw_shell false)))

  abbrev pub home_if_tilde : Option Bytes → Bytes → Option Bytes
  home_if_tilde none dir = none
  home_if_tilde (some w) dir = if bytes_eq w (codes "~") then some dir else some w

  -- The uid, the working directory and the environment of the user; the gid of the group.
  unfoldable pub find_user :
      Surroundings
      → Option Bytes
      → Environment h
      → Value
      → Loaded (ℕ × (Option Bytes × Environment h))
  find_user ctx workdir env v =
      setting (0, (workdir, env))
        (λ name. elim (ctx.getpwnam name) [
          | none ↦ rejected
          | some pw ↦
              and_then (set_user pw env)
                (λ env'. loaded (pw.pw_uid, (home_if_tilde workdir pw.pw_dir, env')))
        ])
        v

  unfoldable pub find_group : Surroundings → Value → Loaded ℕ
  find_group ctx v =
      setting 0 (λ name. elim (ctx.getgrnam name) [ none ↦ rejected | some gid ↦ loaded gid ]) v

  abbrev pub or_root : Bytes → Option Bytes → Bytes
  or_root root none = root ++ (b'/' ∷ [])
  or_root root (some dir) = dir

  unfoldable pub command_of : Surroundings → (Bytes → Value) → List Bytes → Loaded (Option Command)
  command_of ctx service_key [] = rejected
  command_of ctx service_key (first ∷ rest) =
      let (flags, name) = split_prefix first in
      and_then (prepare_environment ctx service_key) (λ env.
        and_then (below_root ctx.root (service_key (codes "RootDirectory"))) (λ rootdir.
          and_then (below_root ctx.root (service_key (codes "WorkingDirectory"))) (λ workdir.
            and_then (find_pid_file ctx rootdir workdir env (service_key (codes "PIDFile")))
              (λ pid_file. elim (ctx.command_resolve_path rootdir workdir pid_file.1 name true) [
                | none ↦ rejected
                | some path ↦ and_then (arguments flags first rest) (λ args.
                    and_then (find_user ctx workdir pid_file.1 (service_key (codes "User")))
                      (λ user. and_then (find_group ctx (service_key (codes "Group"))) (λ gid.
                        and_then (setting 18 read_umask (service_key (codes "UMask"))) (λ umask.
                          loaded (
                            some (record {
                              path = path;
                              rootdir = rootdir;
                              workdir = or_root ctx.root user.1.0;
                              pidfile = pid_file.0;
                              args = args;
                              env = user.1.1;
                              flags = flags;
                              uid = user.0;
                              gid = gid;
                              umask = umask;
                            }))))))
              ]))))

  -- none where there is no such command (ENOENT); `rejected` is NULL with EINVAL.
  unfoldable pub command_from_service :
      Surroundings → (Bytes → Value) → Bytes → Loaded (Option Command)
  command_from_service ctx service_key cmdkey =
      setting none (λ v. command_of ctx service_key (systemd_split_quoted v)) (service_key cmdkey)
