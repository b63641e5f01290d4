-- ===== src/Command/Exec.antt =====
-- src/sysvrun/command.c: command_exec_func, as the system calls that execute a command, and
-- include/exitcode.h: the exit codes of their failures.
use sysvkit.Base.{
  ℕ, Bool, true, false, not, ◌&&◌, Option, none, some, List, [], ◌∷◌, ◌++◌, Bytes, codes, ◌==◌,
  if◌then◌else◌,
}
use sysvkit.Table.{HashTable}
use sysvkit.Environment.{environment_list}
use sysvkit.Service.Settings.{Loaded, loaded, and_then}
use sysvkit.Command.{has_flag, is_plus, or_broken, Command}

-- EXIT_CHDIR, EXIT_EXEC, EXIT_CHROOT, EXIT_GROUP, EXIT_USER
abbrev pub exit_chdir : ℕ
exit_chdir = 200

abbrev pub exit_exec : ℕ
exit_exec = 203

abbrev pub exit_chroot : ℕ
exit_chroot = 210

abbrev pub exit_group : ℕ
exit_group = 216

abbrev pub exit_user : ℕ
exit_user = 217

-- The system calls of command_exec_func; chdir with the exit code of its failure.
pub data Call : Type 0 where
  chroot_to : Bytes → Call
  chdir_to : ℕ → Bytes → Call
  setregid_to : ℕ → Call
  setgroups_to : ℕ → Call
  setreuid_to : ℕ → Call
  umask_to : ℕ → Call
  execve : Bytes → List Bytes → List Bytes → Call

-- The exit code when a call fails; umask does not.
unfoldable pub failure_code : Call → Option ℕ
failure_code (chroot_to dir) = some exit_chroot
failure_code (chdir_to code dir) = some code
failure_code (setregid_to gid) = some exit_group
failure_code (setgroups_to gid) = some exit_group
failure_code (setreuid_to uid) = some exit_user
failure_code (umask_to mask) = none
failure_code (execve path argv envv) = some exit_exec

-- execve replaces the program, so that nothing behind it is made where it succeeds.
abbrev pub is_execve : Call → Bool
is_execve (execve path argv envv) = true
is_execve _ = false

-- The calls that are made up to the first that fails, with its exit code, or up to execve.
unfoldable pub run_calls : (Call → Bool) → List Call → List Call × Option ℕ
run_calls ok [] = ([], none)
run_calls ok (c ∷ calls) =
    let (made, code) = run_calls ok calls in
    elim (failure_code c) [
      | none ↦ (c ∷ made, code)
      | some failed ↦
          if not (ok c)
          then (c ∷ [], some failed)
          else if is_execve c
          then (c ∷ [], none)
          else (c ∷ made, code)
    ]

module _ (h : HashTable) where
  -- The calls of command_exec_func that the command's fields ask for, in their order.
  unfoldable pub root_calls : Option Bytes → List Call
  root_calls none = []
  root_calls (some dir) = chroot_to dir ∷ chdir_to exit_chroot (codes "/") ∷ []

  unfoldable pub credential_calls : Command h → List Call
  credential_calls cmd =
      (if not (cmd.gid == 0) && not (has_flag is_plus cmd.flags)
        then setregid_to cmd.gid ∷ setgroups_to cmd.gid ∷ []
        else [])
      ++ (if not (cmd.uid == 0) && not (has_flag is_plus cmd.flags)
          then setreuid_to cmd.uid ∷ []
          else [])

  unfoldable pub exec_calls : Command h → List Bytes → List Call
  exec_calls cmd envl =
      root_calls cmd.rootdir
      ++ (chdir_to exit_chdir cmd.workdir
          ∷ (credential_calls cmd ++ (umask_to cmd.umask ∷ execve cmd.path cmd.args envl ∷ [])))

  -- The calls that are made, and the exit code, by which calls succeed; there is none where execve
  -- does. `broken` where the environment has freed memory.
  unfoldable pub command_exec_func : Command h → (Call → Bool) → Loaded (List Call × Option ℕ)
  command_exec_func cmd ok =
      and_then (or_broken (environment_list h cmd.env))
        (λ envl. loaded (run_calls ok (exec_calls cmd envl)))
