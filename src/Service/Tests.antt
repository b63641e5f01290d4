-- ===== src/Service/Tests.antt =====
-- Instances of the theorems on services: over association lists, and over a host without running
-- services.
use mathlib.Core.Option.{some-injective}
use sysvkit.Base.{
  ℕ, suc, ◌-◌, ◌<◌, ◌≡◌, ◌≢◌, ◌↔◌, ◌⊎◌, refl, subst, ap, Bool, true, false, Option, none, some,
  List, [], ◌∷◌, Bytes, codes, bytes_eq, if◌then◌else◌, length, drop, arith, span,
}
use sysvkit.Monitor.{stopped}
use sysvkit.Text.{in_line}
use sysvkit.Table.{lookup}
use sysvkit.Table.Assoc.{assoc}
use sysvkit.UnitFile.{ServiceUnit, Section, Slot, live, missing, unit_get_value, unit_create}
use sysvkit.Systemd.{deservicify}
use sysvkit.Systemd.Parse.{
  systemd_parse_unit_file, parse_lines, parse_line, header_line, header_end,
}
use sysvkit.Systemd.RoundTrip.{AreNormalSections}
use sysvkit.Sysvinit.{service_to_byte_array}
use sysvkit.Service.Types.{Service, simple, cgroup, no_restart}
use sysvkit.Service.Settings.{
  loaded, read_delay, remove_required, service_settings, service_from_unit_file,
}
use sysvkit.Service.Settled.{Settled, IsWellFormed, service_from_unit_file-Settled}
use sysvkit.Service.Convert.{service_from_file, service_from_file-service_to_byte_array}
use sysvkit.Service.Search.{
  Files, from_file, systemd_unit_path, sysvinit_script_path, suffix_for, find_in, or_else,
  text_from_file, load_service, is_missing, systemd_find_service, sysvinit_find_service,
  service_find,
}
use sysvkit.Service.Search.First.{IsFoundIn, service_find-loaded}
use sysvkit.Service.Control.{
  Host, exits, endless, ready_to_start, wait_for_stop, service_start_prerequisites, launch,
  start_command, service_start,
}
use sysvkit.Service.Control.Ending.{
  RanksBelow, RequireEachOther, service_start-ends, service_start-endless,
}
use sysvkit.Service.Control.Order.{AllStarted, service_start-AllStarted}

-- charstr_ends_with
abbrev ends : Bytes → Bytes → Bool
ends s suffix = bytes_eq (drop (length s - length suffix) s) suffix

service_from_unit_file-Settled_example :
    Settled IsWellFormed
      (service_from_unit_file assoc ends 0 (codes "u") (codes "[Service]\nType=exec\n"))
service_from_unit_file-Settled_example =
    service_from_unit_file-Settled assoc ends 0 (codes "u") (codes "[Service]\nType=exec\n")

abbrev one_unit : ServiceUnit assoc
one_unit = record {
  name = codes "u";
  sections =
      assoc.put (Section assoc) (codes "Service")
        (assoc.put Slot (codes "Type") (live (codes "exec")) (assoc.make Slot))
        (assoc.make (Section assoc));
}

one_unit_normal : AreNormalSections assoc (assoc.entries (Section assoc) one_unit.sections)
unfolding lookup bytes_eq assoc
one_unit_normal = (
  ((refl, (refl, (refl, (refl, (refl, (refl, (refl, tt))))))), omega arith, omega arith),
  (
    ((refl, (refl, (refl, (refl, tt)))), omega arith, omega arith),
    (
      (refl, refl, (refl, refl, (refl, refl, (refl, refl, (λ e. omega arith, λ e. omega arith))))),
      omega arith,
    ),
    tt,
  ),
  tt,
)

service_from_file-service_to_byte_array_example :
    (text : Bytes) × (service_to_byte_array assoc
        (codes "s")
        (codes "u")
        (codes "a" ∷ [])
        (codes "b" ∷ [])
        one_unit
      ≡ some text)
    × (service_from_file assoc ends 0 (codes "u") text
        ≡ service_settings ends 0 (codes "u") (unit_get_value assoc one_unit))
unfolding in_line
service_from_file-service_to_byte_array_example =
    service_from_file-service_to_byte_array assoc ends 0 (codes "s") (codes "u") (codes "a" ∷ [])
      (codes "b" ∷ []) one_unit one_unit_normal (refl, tt) (refl, tt) refl ((refl, tt), tt)
      ((refl, tt), tt)

-- A service that requires others, and one that requires itself.
abbrev requiring : List Bytes → Service
requiring names = record {
  name = codes "b";
  type = simple;
  kill_mode = cgroup;
  stop_timeout = 0;
  restart_policy = no_restart;
  remain_after_exit = false;
  delay = 0;
  start_limit_interval = 0;
  start_limit_burst = 5;
  required = names;
  should = [];
}

-- No service runs, every command can be run, and services are found by the given function.
abbrev idle_host : (Bytes → Option Service) → Host
idle_host find = record {
  World = Unit {0};
  Command = Unit {0};
  errno = λ w. 0;
  monitor_control_get_state = λ svc w. (stopped, w);
  monitor_control_wait = λ svc timeout mask w. (stopped, w);
  monitor_control_stop = λ svc timeout w. (stopped, w);
  monitor_control_identify = λ svc w. (none, w);
  command_from_service = λ svc key w. (some tt, w);
  command_run = λ cmd w. (some 0, w);
  command_kill = λ cmd sig w. (true, w);
  command_killpg = λ cmd sig w. (true, w);
  command_rmpid = λ cmd w. w;
  command_monitor = λ cmd w. (none, w);
  getpgid = λ pid w. (none, w);
  kill_group = λ pgid sig w. w;
  kill_process = λ pid sig w. w;
  service_find = λ name w. (find name, w);
  unit_get_value = λ svc section key. missing;
}

abbrev find_b : Bytes → Option Service
find_b name = if bytes_eq name (codes "b") then some (requiring []) else none

abbrev count_required : Service → ℕ
count_required svc = length svc.required

-- What is found requires nothing, so that its rank is below that of what requires it.
found-RanksBelow : (n : ℕ) (l : List Bytes) → RanksBelow (idle_host find_b) count_required (suc n) l
found-RanksBelow n [] = tt
found-RanksBelow n (name ∷ l) =
    (λ w svc e. lower svc (found (bytes_eq name (codes "b")) svc e), found-RanksBelow n l)
  where
    found :
        (b : Bool) (svc : Service)
        → (if b then some (requiring []) else none) ≡ some svc
        → requiring [] ≡ svc
    found true svc e = some-injective _ _ e
    found false svc e = cc

    lower : (svc : Service) → requiring [] ≡ svc → count_required svc < suc n
    lower svc e = subst (λ s. count_required s < suc n) e (omega arith)

ranks :
    (svc : Service) → RanksBelow (idle_host find_b) count_required (count_required svc) svc.required
ranks svc = go svc.required
  where
    go : (l : List Bytes) → RanksBelow (idle_host find_b) count_required (length l) l
    go [] = tt
    go (name ∷ l) = found-RanksBelow (length l) (name ∷ l)

service_start-ends_example :
    (service_start (idle_host find_b) 2 (requiring (codes "b" ∷ [])) tt).0 ≢ endless
service_start-ends_example =
    service_start-ends (idle_host find_b) count_required ranks 2 (requiring (codes "b" ∷ [])) tt
      (omega arith)

started : (service_start (idle_host find_b) 2 (requiring (codes "b" ∷ [])) tt).0 ≡ exits 0
unfolding service_start ready_to_start wait_for_stop start_command service_start_prerequisites
    launch bytes_eq
started = refl

service_start-AllStarted_example :
    ((ready_to_start (idle_host find_b) (requiring (codes "b" ∷ [])) tt).0 ≡ some 0)
    ⊎ ((c : Unit {0}) × (some tt ≡ some c)
        × AllStarted
            (idle_host find_b)
            (service_start (idle_host find_b) 1)
            (codes "b" ∷ [])
            (ready_to_start (idle_host find_b) (requiring (codes "b" ∷ [])) tt).1)
service_start-AllStarted_example =
    service_start-AllStarted (idle_host find_b) 1 (requiring (codes "b" ∷ [])) tt started

abbrev find_cycle : Bytes → Option Service
find_cycle name = some (requiring (codes "b" ∷ []))

cycle : RequireEachOther (idle_host find_cycle) (λ svc. svc ≡ requiring (codes "b" ∷ []))
unfolding ready_to_start wait_for_stop
cycle svc e = (
  λ w. refl,
  λ w. (tt, refl),
  (codes "b", [], ap (λ s. s.required) e, λ w. (requiring (codes "b" ∷ []), refl, refl)),
)

service_start-endless_example :
    (service_start (idle_host find_cycle) 1000 (requiring (codes "b" ∷ [])) tt).0 ≡ endless
service_start-endless_example =
    service_start-endless (idle_host find_cycle) (λ svc. svc ≡ requiring (codes "b" ∷ [])) cycle
      1000 (requiring (codes "b" ∷ [])) tt refl

-- The only file is a unit in the directory of scripts.
abbrev etc_init_d : Files
etc_init_d = record {
  stat = λ path. if bytes_eq path (codes "/etc/init.d/u") then none else some 2;
  file = λ path. record {
    fd = some 3;
    fstat_ok = true;
    bytes = some (codes "[Service]\n");
    errno = 2;
  };
}

abbrev defaults : Service
defaults = record {
  name = codes "u";
  type = simple;
  kill_mode = cgroup;
  stop_timeout = 90000000;
  restart_policy = no_restart;
  remain_after_exit = false;
  delay = 0;
  start_limit_interval = 10000000;
  start_limit_burst = 5;
  required = [];
  should = [];
}

found_as_script : service_find assoc ends etc_init_d [] (codes "u") ≡ from_file (loaded defaults)
unfolding service_find systemd_find_service sysvinit_find_service or_else find_in load_service
    text_from_file is_missing bytes_eq service_from_file service_from_unit_file
    systemd_parse_unit_file parse_lines parse_line header_line header_end span service_settings
    unit_get_value assoc unit_create read_delay deservicify remove_required
found_as_script = refl

service_find-loaded_example :
    (service_find assoc ends etc_init_d [] (codes "u") ≡ from_file (loaded defaults)) ↔ (
      IsFoundIn assoc ends etc_init_d []
        (codes "u")
        (suffix_for assoc ends etc_init_d (codes "u"))
        systemd_unit_path
        defaults
      ⊎ (((s : Service)
            → ¬ IsFoundIn assoc ends etc_init_d []
                (codes "u")
                (suffix_for assoc ends etc_init_d (codes "u"))
                systemd_unit_path
                s)
          × IsFoundIn assoc ends etc_init_d [] (codes "u") [] sysvinit_script_path defaults))
service_find-loaded_example = service_find-loaded assoc ends etc_init_d [] (codes "u") defaults
