-- ===== src/Command/Tests.antt =====
-- Runs of the command functions, and instances of their theorems.
use sysvkit.Base.{
  ◌≡◌, refl, Bool, true, none, some, false, List, [], ◌∷◌, ◌++◌, All, Bytes, codes, bytes_eq, span,
  value_from, Bool-cases, inl, inr, arith,
}
use sysvkit.Text.{is_space, in_word, before_word, text_first_word}
use sysvkit.Command.Pid.{
  contents, pid, no_pid, to_pid, read_pid, read_word, command_getpid, kill_target,
  command_kill_impl, command_killpg,
}
use sysvkit.Table.{lookup}
use sysvkit.Table.Assoc.{assoc}
use sysvkit.UnitFile.{Slot, live, value}
use sysvkit.Environment.{
  Environment, environment_create, environment_get, environment_list, list_of,
}
use sysvkit.Environment.Values.{IsLiveEnvironment}
use sysvkit.Service.Settings.{loaded, rejected, broken}
use sysvkit.Command.{
  ef_dash, ef_plus, Passwd, prefix2flag, split_prefix, octal_value, read_mask, read_signed_mask,
  read_umask, set_user, Command,
}
use sysvkit.Command.Exec.{
  Call, is_execve, setregid_to, setgroups_to, setreuid_to, failure_code, run_calls, root_calls,
  credential_calls, exec_calls, command_exec_func,
}
use sysvkit.Command.Made.{set_user-freed}
use sysvkit.Command.Privileges.{last_calls, command_exec_func_privileges}

-- Whatever a run goes through.
runs : Unit {0}
unfolding is_space span lookup assoc environment_create environment_list list_of prefix2flag
    split_prefix octal_value read_mask read_signed_mask read_umask failure_code run_calls root_calls
    credential_calls exec_calls command_exec_func
runs = tt

prefixes : split_prefix (codes "-+/bin/true") ≡ (ef_dash ∷ ef_plus ∷ [], codes "/bin/true")
unfolding runs
prefixes = refl

mask : read_umask (codes "0027") ≡ loaded 23
unfolding runs
mask = refl

no_mask : read_umask (codes "0028") ≡ rejected
unfolding runs
no_mask = refl

abbrev with_shell : Environment assoc
with_shell = assoc.put Slot (codes "SHELL") (live (codes "sh")) (assoc.make Slot)

with_shell-live : IsLiveEnvironment assoc with_shell
unfolding environment_get
with_shell-live k = elim (Bool-cases (bytes_eq (codes "SHELL") k)) [
  | inl e ↦
      rw (assoc.get-put Slot k (codes "SHELL") (live (codes "sh")) (assoc.make Slot), e) (λ x. cc)
  | inr e ↦
      rw
        (
          assoc.get-put Slot k (codes "SHELL") (live (codes "sh")) (assoc.make Slot),
          e,
          assoc.get-make Slot k,
        )
        (λ x. cc)
]

shell_value : environment_get assoc with_shell (codes "SHELL") ≡ value (codes "sh")
unfolding environment_get assoc lookup bytes_eq
shell_value = refl

abbrev some_user : Passwd
some_user = record { pw_name = codes "u"; pw_uid = 7; pw_dir = codes "/"; pw_shell = codes "sh" }

set_user-freed_example :
    (env' : Environment assoc) × (set_user assoc some_user with_shell ≡ loaded env')
    × ((cmd : Command assoc) (ok : Call → Bool)
        → cmd.env ≡ env'
        → command_exec_func assoc cmd ok ≡ broken)
set_user-freed_example =
    set_user-freed assoc some_user with_shell (codes "sh") with_shell-live shell_value

-- A command of a user and a group.
abbrev user_command : Command assoc
user_command = record {
  path = codes "/x";
  rootdir = none;
  workdir = codes "/";
  pidfile = none;
  args = codes "/x" ∷ [];
  env = environment_create assoc;
  flags = [];
  uid = 7;
  gid = 8;
  umask = 18;
}

abbrev all_succeed : Call → Bool
all_succeed c = true

ran :
    command_exec_func assoc user_command all_succeed
    ≡ loaded (exec_calls assoc user_command [], none)
unfolding runs
ran = refl

command_exec_func_privileges_example :
    (before : List Call) × (envl : List Bytes) × (exec_calls assoc user_command []
      ≡ before ++ last_calls assoc user_command envl)
    × All (λ c. is_execve c ≡ false) before
    × (environment_list assoc user_command.env ≡ some envl)
    × (all_succeed (setregid_to 8) ≡ true)
    × (all_succeed (setgroups_to 8) ≡ true)
    × (all_succeed (setreuid_to 7) ≡ true)
command_exec_func_privileges_example =
    command_exec_func_privileges assoc user_command all_succeed (exec_calls assoc user_command [])
      (λ e. omega arith) (λ e. omega arith) refl ran

-- Whatever a run on a PID file goes through.
pid_runs : Unit {0}
unfolding is_space span in_word before_word text_first_word value_from to_pid read_pid read_word
    command_getpid kill_target command_kill_impl command_killpg
pid_runs = tt

pid_read : command_getpid (contents (codes " 123\n")) ≡ pid 123
unfolding pid_runs
pid_read = refl

-- A number above 32 bits is another process.
pid_wrapped : command_getpid (contents (codes "4294967301")) ≡ pid 5
unfolding pid_runs
pid_wrapped = refl

pid_invalid : command_getpid (contents (codes "12x")) ≡ no_pid 22
unfolding pid_runs
pid_invalid = refl

group_killed :
    (command_killpg (λ s. none) (λ n. (some 9, 0)) (contents (codes "5\n")) 15).failure ≡ none
unfolding pid_runs
group_killed = refl
