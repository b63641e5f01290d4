-- ===== src/Service/Settings.antt =====
-- src/sysvrun/service.c: service_from_unit_file, which reads a service's settings from its unit.
-- `ends_with` is charstr_ends_with; `errno` is its value at the beginning, which the overflow test of
-- timespan_from_str reads.
use mathlib.Core.Bool.{◌||◌}
use sysvkit.Base.{
  ℕ, ◌-◌, ◌*◌, ◌^◌, ◌%◌, Bool, true, false, not, none, some, List, [], ◌∷◌, Bytes, codes, bytes_eq,
  span, ◌==◌, ltb, is_digit, value_from, if◌then◌else◌, length, enoent,
}
use sysvkit.Text.{is_space}
use sysvkit.Timespan.{ts_sec, ts_msec, timespan_from_str}
use sysvkit.Timespan
use sysvkit.Strbool.{strbool}
use sysvkit.Table.{HashTable}
use sysvkit.UnitFile.{Value, value, missing, freed, unit_get_value}
use sysvkit.Systemd.{deservicify, systemd_split_quoted}
use sysvkit.Systemd.Parse.{parsed, malformed, freed_memory, out_of_fuel, systemd_parse_unit_file}
use sysvkit.Strlist.{seen_before}
use sysvkit.Service.Types.{
  ServiceType, simple, exec, forking, oneshot, dbus, notify, idle, KillMode, cgroup, mixed, process,
  RestartPolicy, no_restart, always, on_success, on_failure, on_abnormal, on_abort,
  service_type_name, kill_mode_name, restart_policy_name, Service,
}
use sysvkit.Service.Types

-- A result, NULL, a use of freed memory, or no fuel.
pub data Loaded (A : Type 0) : Type 0 where
  loaded : A → Loaded A
  rejected : Loaded A
  broken : Loaded A
  unfinished : Loaded A

abbrev pub and_then : {A B : Type 0} → Loaded A → (A → Loaded B) → Loaded B
and_then (loaded a) f = f a
and_then rejected f = rejected
and_then broken f = broken
and_then unfinished f = unfinished

-- A setting with a default, where there is no value.
abbrev pub setting : {A : Type 0} → A → (Bytes → Loaded A) → Value → Loaded A
setting default read missing = loaded default
setting default read (value v) = read v
setting default read freed = broken

-- The loop over a table of names: the first that is equal.
unfoldable pub find_name : {A : Type 0} → (A → Bytes) → List A → Bytes → Loaded A
find_name name [] v = rejected
find_name name (a ∷ l) v = if bytes_eq v (name a) then loaded a else find_name name l v

abbrev pub service_types : List ServiceType
service_types = simple ∷ exec ∷ forking ∷ oneshot ∷ dbus ∷ notify ∷ idle ∷ []

abbrev pub kill_modes : List KillMode
kill_modes = cgroup ∷ mixed ∷ process ∷ Types.none ∷ []

abbrev pub restart_policies : List RestartPolicy
restart_policies = no_restart ∷ always ∷ on_success ∷ on_failure ∷ on_abnormal ∷ on_abort ∷ []

unfoldable pub read_timespan : ℕ → Bytes → Loaded ℕ
read_timespan errno v = elim (timespan_from_str errno v) [
  | Timespan.value ts ↦ loaded ts
  | Timespan.invalid e ↦ rejected
  | Timespan.out_of_fuel ↦ unfinished
]

-- strtoul(value, &end, 10) behind a sign: the digits, if there is one, and the end of the string.
unfoldable pub read_digits : Bool → Bytes → Loaded ℕ
read_digits negative s =
    let (ds, end) = span is_digit s in
    let n = value_from 0 ds in
    if length ds == 0 || not (length end == 0) || ltb (2 ^ 64 - 1) n
    then rejected
    else loaded (if negative then (2 ^ 64 - n) % 2 ^ 64 else n)

unfoldable pub read_signed : Bytes → Loaded ℕ
read_signed [] = rejected
read_signed (c ∷ s) =
    if c == b'-'
    then read_digits true s
    else if c == b'+'
    then read_digits false s
    else read_digits false (c ∷ s)

unfoldable pub read_burst : Bytes → Loaded ℕ
read_burst [] = rejected
read_burst (c ∷ s) = if c == b'-' then rejected else read_signed (span is_space (c ∷ s)).1

-- A list of units: those that are services, without the suffix.
unfoldable pub services : (Bytes → Bytes → Bool) → List Bytes → List Bytes
services ends_with [] = []
services ends_with (s ∷ l) =
    let (is_service, name) = deservicify ends_with s in
    let rest = services ends_with l in if is_service then name ∷ rest else rest

unfoldable pub read_services : (Bytes → Bytes → Bool) → Bytes → Loaded (List Bytes)
read_services ends_with v = loaded (services ends_with (systemd_split_quoted v))

-- The elements of After that are not in Requires.
unfoldable pub remove_required : List Bytes → List Bytes → List Bytes
remove_required required [] = []
remove_required required (s ∷ should) =
    let rest = remove_required required should in if seen_before s required then rest else s ∷ rest

-- unit_get_bool > 0
unfoldable pub read_flag : Bytes → Loaded Bool
read_flag v = elim (strbool (some v)) [ none ↦ loaded false | some b ↦ loaded b ]

-- The delay is not read where the policy is not to restart; then it is 0.
unfoldable pub read_delay : ℕ → RestartPolicy → Value → Loaded ℕ
read_delay errno no_restart v = loaded 0
read_delay errno _ v = setting (100 * ts_msec) (read_timespan errno) v

-- A read of a value that does not exist sets errno.
abbrev pub errno_after : Value → ℕ → ℕ
errno_after missing errno = enoent
errno_after _ errno = errno

abbrev pub errno_after_delay : RestartPolicy → Value → ℕ → ℕ
errno_after_delay no_restart v errno = errno
errno_after_delay _ v errno = errno_after v errno

-- What service_from_unit_file does behind the parser; `get` is unit_get_value of a section and a key.
unfoldable pub service_settings :
    (Bytes → Bytes → Bool) → ℕ → Bytes → (Bytes → Bytes → Value) → Loaded Service
service_settings ends_with errno name get =
    let service_key : Bytes → Value = get (codes "Service") in
    let policy_errno = errno_after (service_key (codes "KillMode")) (
      errno_after (service_key (codes "Type")) (
        errno_after (get (codes "Unit") (codes "After"))
          (errno_after (get (codes "Unit") (codes "Requires")) errno))) in
    let delay_errno =
      errno_after (service_key (codes "Restart"))
        (errno_after (service_key (codes "TimeoutStopSec")) policy_errno) in
    and_then (setting [] (read_services ends_with) (get (codes "Unit") (codes "Requires")))
      (λ required.
        and_then (setting [] (read_services ends_with) (get (codes "Unit") (codes "After")))
          (λ after.
            and_then
              (setting simple (find_name service_type_name service_types)
                (service_key (codes "Type")))
              (λ type.
                and_then
                  (setting cgroup (find_name kill_mode_name kill_modes)
                    (service_key (codes "KillMode")))
                  (λ kill_mode.
                    and_then
                      (setting (90 * ts_sec) (read_timespan policy_errno)
                        (service_key (codes "TimeoutStopSec")))
                      (λ stop_timeout.
                        and_then
                          (setting no_restart (find_name restart_policy_name restart_policies)
                            (service_key (codes "Restart")))
                          (λ policy.
                            and_then
                              (read_delay delay_errno policy (service_key (codes "RestartSec")))
                              (λ delay.
                                let interval_errno =
                                  errno_after (service_key (codes "RemainAfterExit")) (
                                    errno_after_delay policy (service_key (codes "RestartSec"))
                                      delay_errno) in
                                and_then
                                  (setting false read_flag (service_key (codes "RemainAfterExit")))
                                  (λ remain.
                                    and_then
                                      (setting (10 * ts_sec) (read_timespan interval_errno)
                                        (service_key (codes "StartLimitInterval")))
                                      (λ interval.
                                        and_then
                                          (setting 5 read_burst
                                            (service_key (codes "StartLimitBurst")))
                                          (λ burst. loaded (record {
                                            name = (deservicify ends_with name).1;
                                            type = type;
                                            kill_mode = kill_mode;
                                            stop_timeout = stop_timeout;
                                            restart_policy = policy;
                                            remain_after_exit = remain;
                                            delay = delay;
                                            start_limit_interval = interval;
                                            start_limit_burst = burst;
                                            required = required;
                                            should = remove_required required after;
                                          })))))))))))

-- service_from_unit_file
unfoldable pub service_from_unit_file :
    (h : HashTable) → (Bytes → Bytes → Bool) → ℕ → Bytes → Bytes → Loaded Service
service_from_unit_file h ends_with errno name txt = elim (systemd_parse_unit_file h name txt) [
  | parsed u ↦ service_settings ends_with errno name (unit_get_value h u)
  | malformed ↦ rejected
  | freed_memory ↦ broken
  | out_of_fuel ↦ unfinished
]
