-- ===== src/Monitor/Client.antt =====
-- The client's side of the control protocol in src/sysvrun/monitor.c: monitor_control_get_state,
-- monitor_control_wait, monitor_control_stop and monitor_control_restart. What monitor_control
-- returns for each request, and what the clock shows after it, are given as a list.
pub mod Waiting
use sysvkit.Base.{
  ℕ, zero, suc, ◌+◌, ◌-◌, ◌*◌, ◌%◌, ◌^◌, Bool, true, false, not, ◌&&◌, ◌||◌, Option, none, some,
  List, [], ◌∷◌, Bytes, codes, bytes_eq, ◌==◌, ltb, if◌then◌else◌, enoent, econnrefused, einval,
  eproto, etimedout,
}
use sysvkit.Monitor.{
  MonitorState, error, restarting, running, remaining, stopping, stopped, state_eq,
}
use sysvkit.Monitor.Names.{monitor_state_from_name}

abbrev eperm : ℕ
eperm = 1

-- What monitor_control returns: NULL with errno, or the response.
pub data Reply : Type 0 where
  no_reply : ℕ → Reply
  response : Bytes → Reply

-- A monitor_state with errno: MS_ERROR with errno, or another state.
pub data Answer : Type 0 where
  failure : ℕ → Answer
  got : MonitorState → Answer

unfoldable pub monitor_control_get_state : Reply → Answer
monitor_control_get_state (no_reply n) =
    if n == enoent || n == econnrefused then got stopped else failure n
monitor_control_get_state (response r) =
    if bytes_eq r (codes "denied")
    then failure eperm
    else if state_eq (monitor_state_from_name r) error
    then failure einval
    else got (monitor_state_from_name r)

-- The bits of `mask`: the states that are waited for.
unfoldable pub awaited : List MonitorState → MonitorState → Bool
awaited [] s = false
awaited (t ∷ mask) s = state_eq s t || awaited mask s

-- state == MS_ERROR || mask & (1U << state)
unfoldable pub settles : List MonitorState → Answer → Bool
settles mask (failure n) = true
settles mask (got s) = awaited mask s

-- The result of a call, unless it still waits when the given replies are used up.
pub data Waited : Type 0 where
  waiting : Waited
  returns : Answer → Waited

-- MONITOR_POLL_INTERVAL
abbrev pub monitor_poll_interval : ℕ
monitor_poll_interval = 500000

-- The loop of monitor_control_wait: a poll is the reply after the sleep, and the clock behind it.
unfoldable pub wait_loop : List MonitorState → ℕ → ℕ → List (Reply × ℕ) → Waited
wait_loop mask deadline now [] = if ltb now deadline then waiting else returns (failure etimedout)
wait_loop mask deadline now ((r, clock) ∷ polls) =
    let later = wait_loop mask deadline clock polls in
    let answer = monitor_control_get_state r in
    if not (ltb now deadline)
    then returns (failure etimedout)
    else if settles mask answer
    then returns answer
    else later

-- `timeout` is none where it is negative.
unfoldable pub deadline_of : Option ℕ → ℕ → ℕ
deadline_of none now = 2 ^ 64 - 1
deadline_of (some ms) now = (now + ms * 1000) % 2 ^ 64

unfoldable pub monitor_control_wait :
    List MonitorState → Option ℕ → Reply → ℕ → List (Reply × ℕ) → Waited
monitor_control_wait mask timeout first now polls =
    let answer = monitor_control_get_state first in
    if settles mask answer
    then returns answer
    else wait_loop mask (deadline_of timeout now) now polls

-- The response to a command: the state it leads to, or an error; `before` where there is none.
unfoldable pub commanded : Answer → MonitorState → Reply → Answer
commanded before next (no_reply n) = before
commanded before next (response r) =
    if bytes_eq r (codes "ok")
    then got next
    else if bytes_eq r (codes "denied")
    then failure eperm
    else failure eproto

-- The switch of monitor_control_stop, and that of monitor_control_restart.
unfoldable pub stop_state : Answer → Reply → Answer
stop_state (failure n) cmd = failure n
stop_state (got s) cmd =
    if state_eq s stopped || state_eq s stopping then got s else commanded (got s) stopping cmd

unfoldable pub restart_state : Answer → Reply → Answer
restart_state (failure n) cmd = failure n
restart_state (got s) cmd =
    if state_eq s stopped || state_eq s stopping || state_eq s restarting
    then got s
    else commanded (got s) restarting cmd

-- Waits if the state is `next`; otherwise the state is the result.
unfoldable pub wait_if : MonitorState → Waited → Answer → Waited
wait_if next w (failure n) = returns (failure n)
wait_if next w (got s) = if state_eq s next then w else returns (got s)

-- `status` is the reply to the first request, `cmd` that to the command.
unfoldable pub monitor_control_stop :
    Option ℕ → Reply → Reply → Reply → ℕ → List (Reply × ℕ) → Waited
monitor_control_stop timeout status cmd first now polls =
    wait_if stopping (monitor_control_wait (stopped ∷ []) timeout first now polls)
      (stop_state (monitor_control_get_state status) cmd)

unfoldable pub monitor_control_restart :
    Option ℕ → Reply → Reply → Reply → ℕ → List (Reply × ℕ) → Waited
monitor_control_restart timeout status cmd first now polls =
    wait_if restarting (monitor_control_wait (running ∷ remaining ∷ []) timeout first now polls)
      (restart_state (monitor_control_get_state status) cmd)
