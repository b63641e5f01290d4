-- ===== src/Monitor/Names.antt =====
-- Monitor states by name, as the control protocol transports them.
use sysvkit.Base.{if◌then◌else◌, List, [], ◌∷◌, Bytes, codes, bytes_eq, ◌≡◌, refl}
use sysvkit.Monitor.{
  MonitorState, error, idle, restarting, starting, running, remaining, stopping, stopped, failed,
  dead,
}

unfoldable pub monitor_state_name : MonitorState → Bytes
monitor_state_name error = codes "error"
monitor_state_name idle = codes "idle"
monitor_state_name restarting = codes "restarting"
monitor_state_name starting = codes "starting"
monitor_state_name running = codes "running"
monitor_state_name remaining = codes "remaining"
monitor_state_name stopping = codes "stopping"
monitor_state_name stopped = codes "stopped"
monitor_state_name failed = codes "failed"
monitor_state_name dead = codes "dead"

-- The states below MS_NUM_STATES, in the order of the table.
abbrev pub monitor_states : List MonitorState
monitor_states =
    idle ∷ restarting ∷ starting ∷ running ∷ remaining ∷ stopping ∷ stopped ∷ failed ∷ dead ∷ []

unfoldable pub find_state : Bytes → List MonitorState → MonitorState
find_state name [] = error
find_state name (s ∷ ss) = if bytes_eq (monitor_state_name s) name then s else find_state name ss

unfoldable pub monitor_state_from_name : Bytes → MonitorState
monitor_state_from_name name = find_state name monitor_states

-- Every state, MS_ERROR included, is recovered from its name.
pub monitor_state_from_name-monitor_state_name :
    (s : MonitorState) → monitor_state_from_name (monitor_state_name s) ≡ s
unfolding monitor_state_from_name find_state monitor_state_name bytes_eq
monitor_state_from_name-monitor_state_name error = refl
monitor_state_from_name-monitor_state_name _ = refl
