-- ===== src/Monitor.antt =====
-- src/sysvrun/monitor.c and monitor.h: the service monitor. This file has its states and its
-- record; the children have the control socket, the start limit, the watch loop and the main loop.
pub mod Names
pub mod Control
pub mod Limit
pub mod Watch
pub mod Loop
pub mod Client
pub mod Exchange
mod Tests
use mathlib.Core.Bool.{◌||◌}
use sysvkit.Base.{
  ℕ, Bool, true, false, ltb, leb, ◌==◌, Option, none, some, List, Bytes, ◌+◌, ◌-◌, ◌*◌, ◌/◌, ◌%◌,
  not, ◌&&◌,
}

-- monitor_state; `error` is MS_ERROR, -1.
pub data MonitorState : Type 0 where
  error idle restarting starting running remaining stopping stopped failed dead : MonitorState

-- The enumerator's value, for the comparisons; MS_ERROR is below all others.
abbrev pub rank : MonitorState → ℕ
rank error = 0
rank idle = 1
rank restarting = 2
rank starting = 3
rank running = 4
rank remaining = 5
rank stopping = 6
rank stopped = 7
rank failed = 8
rank dead = 9

abbrev pub state_eq : MonitorState → MonitorState → Bool
state_eq a b = rank a == rank b

-- Levels of noise.h.
pub data Noise : Type 0 where
  quiet normal verbose debug : Noise

-- The part of struct monitor that outlives a call. `child` and `pid` are 0 where there is none;
-- `wstatus` is `none` for -1.
pub record Monitor : Type 0 where
  pub state : MonitorState
  pub noisy : Noise
  pub child : ℕ
  pub pid : ℕ
  pub wstatus : Option ℕ

unfoldable pub monitor_set_state : Monitor → MonitorState → Monitor
monitor_set_state mon state = record mon { state = state }

unfoldable pub monitor_is_waiting : Monitor → Bool
monitor_is_waiting mon = state_eq mon.state restarting || state_eq mon.state remaining

unfoldable pub monitor_is_stopping : Monitor → Bool
monitor_is_stopping mon = state_eq mon.state restarting || state_eq mon.state stopping

-- The wait status macros.
abbrev pub wifexited : ℕ → Bool
wifexited w = w % 128 == 0

abbrev pub wexitstatus : ℕ → ℕ
wexitstatus w = w / 256 % 256

abbrev pub wtermsig : ℕ → ℕ
wtermsig w = w % 128

abbrev pub wifsignaled : ℕ → Bool
wifsignaled w = not (w % 128 == 0) && not (w % 128 == 127)
