-- ===== src/Monitor/Exchange.antt =====
-- The client's side of the control socket in src/sysvrun/monitor.c: monitor_client_connect,
-- monitor_control_identify and monitor_control, by what the system calls return.
pub mod Agreement
mod Tests
use sysvkit.Base.{
  ℕ, zero, suc, ◌+◌, ◌-◌, ◌*◌, ◌%◌, ◌^◌, Bool, true, false, ◌||◌, Option, none, some, List, [], ◌∷◌,
  ◌++◌, Bytes, codes, ◌==◌, ltb, leb, if◌then◌else◌, is_digit, span, value_from, einval, eproto,
  econnrefused, length,
}
use sysvkit.Monitor.Control.{is_space, c_string, stored_request, stored_reply}
use sysvkit.Monitor.Client.{Reply, no_reply, response}

abbrev pub econnreset : ℕ
econnreset = 104

abbrev pub monitor_control_version : ℕ
monitor_control_version = 20220303

-- sscanf's match of a text, and of white space, which may be none.
unfoldable pub after_text : Bytes → Bytes → Option Bytes
after_text [] s = some s
after_text (c ∷ t) [] = none
after_text (c ∷ t) (d ∷ s) = if c == d then after_text t s else none

unfoldable pub skip_space : Bytes → Bytes
skip_space [] = []
skip_space (c ∷ s) = if is_space c then skip_space s else c ∷ s

-- %u, which takes a sign; numbers are below 2 ^ 64, as for strtoul.
unfoldable pub scan_digits : Bool → Bytes → Option ℕ
unfolding span value_from
scan_digits minus s = elim ((span is_digit s).0) [
  | [] ↦ none
  | d ∷ ds ↦
      let n = value_from 0 (d ∷ ds) % 2 ^ 32 in some (if minus then (2 ^ 32 - n) % 2 ^ 32 else n)
]

unfoldable pub scan_sign : Bytes → Option ℕ
unfolding scan_digits
scan_sign [] = none
scan_sign (c ∷ s) =
    if c == b'-'
    then scan_digits true s
    else if c == b'+'
    then scan_digits false s
    else scan_digits false (c ∷ s)

unfoldable pub scan_quoted : Bytes → Option ℕ
unfolding after_text skip_space scan_sign
scan_quoted s = elim (after_text (b'"' ∷ []) (skip_space s)) [
  | none ↦ none
  | some r ↦ scan_sign (skip_space r)
]

-- sscanf(buf, MONITOR_CONTROL_BANNER_FORMAT, &version) == 1
unfoldable pub scan_version : Bytes → Option ℕ
unfolding after_text scan_quoted
scan_version s = elim (after_text (codes "{\"version\":") s) [
  | none ↦ none
  | some r ↦ scan_quoted r
]

-- The connection: errno, or the monitor's process id and version.
pub data Connected : Type 0 where
  refused : ℕ → Connected
  connected : (pid version : ℕ) → Connected

-- A failure of socket, connect, getsockopt or read, by its errno, or the peer and what is read.
pub data Greeting : Type 0 where
  fails : ℕ → Greeting
  greets : (pid : ℕ) → Bytes → Greeting

-- `junk` is what the buffer holds before.
unfoldable pub monitor_client_connect : Greeting → Bytes → Connected
unfolding c_string stored_request scan_version
monitor_client_connect (fails e) junk = refused (if e == econnreset then econnrefused else e)
monitor_client_connect (greets pid banner) junk =
    elim (scan_version (c_string (stored_request banner junk))) [
      | none ↦ refused eproto
      | some v ↦ connected pid v
    ]

-- none for -1.
unfoldable pub monitor_control_identify : Connected → Option (ℕ × ℕ)
monitor_control_identify (refused e) = none
monitor_control_identify (connected pid version) = some (pid, version)

-- What write and the read of the answer come to: errno, or the answer.
pub data Carried : Type 0 where
  lost : ℕ → Carried
  answered : Bytes → Carried

-- What is written for a command.
abbrev pub request_line : Bytes → Bytes
request_line command = command ++ (b'\r' ∷ b'\n' ∷ [])

unfoldable pub receive : Bytes → Bytes → Carried → Reply
unfolding c_string stored_request stored_reply
receive command junk (lost e) = no_reply e
receive command junk (answered input) =
    response (c_string (stored_request input (stored_reply command junk)))

unfoldable pub monitor_control : Connected → Bytes → Bytes → Carried → Reply
unfolding receive
monitor_control (refused e) command junk carried = no_reply e
monitor_control (connected pid version) command junk carried =
    if ltb monitor_control_version version
    then no_reply eproto
    else if leb 4094 (length command)
    then no_reply einval
    else receive command junk carried
