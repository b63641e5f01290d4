-- ===== src/Service/Types.antt =====
-- The enumerations of src/sysvrun/service.h, their names in unit files, and struct service.
use sysvkit.Base.{ℕ, Bool, Bytes, codes, List}

pub data ServiceType : Type 0 where
  simple exec forking oneshot dbus notify idle : ServiceType

pub data KillMode : Type 0 where
  cgroup mixed process none : KillMode

pub data RestartPolicy : Type 0 where
  no_restart always on_success on_failure on_abnormal on_abort : RestartPolicy

-- The service type's string in service_type_names.
unfoldable pub service_type_name : ServiceType → Bytes
service_type_name simple = codes "simple"
service_type_name exec = codes "exec"
service_type_name forking = codes "forking"
service_type_name oneshot = codes "oneshot"
service_type_name dbus = codes "dbus"
service_type_name notify = codes "notify"
service_type_name idle = codes "idle"

unfoldable pub kill_mode_name : KillMode → Bytes
kill_mode_name cgroup = codes "control-group"
kill_mode_name mixed = codes "mixed"
kill_mode_name process = codes "process"
kill_mode_name none = codes "none"

unfoldable pub restart_policy_name : RestartPolicy → Bytes
restart_policy_name no_restart = codes "no"
restart_policy_name always = codes "always"
restart_policy_name on_success = codes "on-success"
restart_policy_name on_failure = codes "on-failure"
restart_policy_name on_abnormal = codes "on-abnormal"
restart_policy_name on_abort = codes "on-abort"

-- struct service without the unit. Times are in microseconds.
pub record Service : Type 0 where
  pub name : Bytes
  pub type : ServiceType
  pub kill_mode : KillMode
  pub stop_timeout : ℕ
  pub restart_policy : RestartPolicy
  pub remain_after_exit : Bool
  pub delay : ℕ
  pub start_limit_interval : ℕ
  pub start_limit_burst : ℕ
  pub required : List Bytes
  pub should : List Bytes
