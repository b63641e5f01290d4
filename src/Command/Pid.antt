-- ===== src/Command/Pid.antt =====
-- src/sysvrun/command.c: the process that a command's PID file names, and signals to it.
use mathlib.Core.Bool.{◌||◌}
use sysvkit.Base.{
  ℕ, ◌-◌, ◌^◌, ◌%◌, Bool, true, false, not, ◌&&◌, Option, none, some, List, [], ◌∷◌, Bytes, span,
  ◌==◌, ltb, is_digit, value_from, if◌then◌else◌, length, enoent, einval, erange,
}
use sysvkit.Text.{text_first_word}

-- What a PID file's name leads to: no name in the command, a file that cannot be read with errno, or
-- the file's text.
pub data PidFile : Type 0 where
  unnamed : PidFile
  unreadable : ℕ → PidFile
  contents : Bytes → PidFile

-- A pid, which is not negative, or -1 or another negative number with errno.
pub data Pid : Type 0 where
  pid : ℕ → Pid
  no_pid : ℕ → Pid

-- A long that is returned as a pid_t of 32 bits; errno is still EINVAL.
unfoldable pub to_pid : ℕ → Pid
to_pid num = let n = num % 2 ^ 32 in if ltb n (2 ^ 31) then pid n else no_pid einval

-- strtol(word->beg, &end, 10) behind a sign, where end is the word's end.
unfoldable pub read_pid : Bool → Bytes → Pid
read_pid negative s =
    let (ds, end) = span is_digit s in
    let num = value_from 0 ds in
    if length ds == 0 || not (length end == 0) || (negative && ltb 0 num)
    then no_pid einval
    else if ltb (2 ^ 63 - 1) num
    then no_pid erange
    else to_pid num

unfoldable pub read_word : Bytes → Pid
read_word [] = no_pid einval
read_word (c ∷ s) =
    if c == b'-'
    then read_pid true s
    else if c == b'+'
    then read_pid false s
    else read_pid false (c ∷ s)

unfoldable pub command_getpid : PidFile → Pid
command_getpid unnamed = no_pid einval
command_getpid (unreadable errno) = no_pid errno
command_getpid (contents text) = read_word (text_first_word text).0

-- A call of kill: to a group or to a process, its number, and the signal.
pub record Signal : Type 0 where
  pub to_group : Bool
  pub target : ℕ
  pub signo : ℕ

-- The signals sent, and errno where the result is -1.
pub record Killed : Type 0 where
  pub signals : List Signal
  pub failure : Option ℕ

abbrev pub sigcont : ℕ
sigcont = 18

abbrev pub not_killed : ℕ → Killed
not_killed errno = record { signals = []; failure = some errno }

-- kill, and SIGCONT behind a signal that is no probe and not SIGCONT itself; `kill` gives errno where
-- it fails.
unfoldable pub kill_target : (Signal → Option ℕ) → Bool → ℕ → ℕ → Killed
kill_target kill group target signo =
    let first : Signal = record { to_group = group; target = target; signo = signo } in
    let second : Signal = record { to_group = group; target = target; signo = sigcont } in
    elim (kill first) [
      | some errno ↦ record { signals = first ∷ []; failure = some errno }
      | none ↦ record {
        signals = if signo == 0 || signo == sigcont then first ∷ [] else first ∷ second ∷ [];
        failure = none;
      }
    ]

-- What is reported for a pid that is not positive.
abbrev pub pid_errno : ℕ → ℕ
pid_errno errno = if errno == erange then einval else errno

-- `getpgid` gives the group, or errno where it fails; a group is positive.
unfoldable pub command_kill_impl :
    (Signal → Option ℕ) → (ℕ → Option ℕ × ℕ) → PidFile → ℕ → Bool → Killed
command_kill_impl kill getpgid unnamed signo pg = not_killed enoent
command_kill_impl kill getpgid file signo pg = elim (command_getpid file) [
  | no_pid errno ↦ not_killed (pid_errno errno)
  | pid n ↦
      let (group, errno) = getpgid n in
      let to_group = elim group as (λ _. Killed) [
        | none ↦ not_killed errno
        | some g ↦ kill_target kill true g signo
      ] in
      if n == 0 then not_killed enoent else if pg then to_group else kill_target kill false n signo
]

unfoldable pub command_kill : (Signal → Option ℕ) → (ℕ → Option ℕ × ℕ) → PidFile → ℕ → Killed
command_kill kill getpgid file signo = command_kill_impl kill getpgid file signo false

unfoldable pub command_killpg : (Signal → Option ℕ) → (ℕ → Option ℕ × ℕ) → PidFile → ℕ → Killed
command_killpg kill getpgid file signo = command_kill_impl kill getpgid file signo true
