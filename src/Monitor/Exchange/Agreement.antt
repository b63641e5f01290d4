-- ===== src/Monitor/Exchange/Agreement.antt =====
-- Client and server of the control socket together: what a client is told is what the server says.
use sysvkit.Base.{
  ℕ, ◌+◌, ◌<◌, ◌≡◌, ◌≢◌, refl, sym, ap, ◌∙◌, subst, Bool, true, false, ◌||◌, some, List, [], ◌∷◌,
  Bytes, codes, bytes_eq, if◌then◌else◌, length, All, arith, eperm,
}
use sysvkit.Monitor.{Monitor, MonitorState, rank, stopping, monitor_set_state}
use sysvkit.Monitor.Names.{monitor_state_name, monitor_state_from_name, find_state}
use sysvkit.Monitor.Control.{
  is_space, keep_before, strip_space, c_string, stored_request, stored_reply, banner, respond,
  serve, session, received, end_round, end_session, add_reply, Connection, closed, is_privileged,
  ingest_from, max_session_duration, monitor_control_socket_ingest,
}
use sysvkit.Monitor.Control.Framing.{NoNul, request_terminated}
use sysvkit.Monitor.Client.{
  Reply, response, monitor_control_get_state, got, failure, stop_state, commanded,
}
use sysvkit.Monitor.Exchange.{
  greets, connected, monitor_client_connect, Carried, lost, answered, econnreset, request_line,
  receive, monitor_control,
}

-- A text that arrives as it was sent.
abbrev pub IsPlain : Bytes → Type 0
IsPlain s = (strip_space s ≡ s) × NoNul s

spaces : All (λ c. is_space c ≡ true) (b'\r' ∷ b'\n' ∷ [])
spaces = (refl, (refl, tt))

line_read : (s buf : Bytes) → IsPlain s → c_string (stored_request (request_line s) buf) ≡ s
line_read s buf (whole, nn) =
    request_terminated s (b'\r' ∷ b'\n' ∷ []) buf whole nn (λ e. cc) spaces

state-IsPlain : (s : MonitorState) → IsPlain (monitor_state_name s)
unfolding monitor_state_name strip_space keep_before
state-IsPlain MonitorState.error = ground arith
state-IsPlain _ = ground arith

chosen-IsPlain : (b : Bool) (s t : Bytes) → IsPlain s → IsPlain t → IsPlain (if b then s else t)
chosen-IsPlain true s t h k = h
chosen-IsPlain false s t h k = k

ok-IsPlain : IsPlain (codes "ok")
unfolding strip_space keep_before
ok-IsPlain = ground arith

denied-IsPlain : IsPlain (codes "denied")
unfolding strip_space keep_before
denied-IsPlain = ground arith

error-IsPlain : IsPlain (codes "error")
unfolding strip_space keep_before
error-IsPlain = ground arith

-- The commands that only a privileged client may give.
abbrev is_order : Bytes → Bool
is_order cmd =
    bytes_eq cmd (codes "stop")
    || bytes_eq cmd (codes "restart")
    || bytes_eq cmd (codes "noise=debug")
    || bytes_eq cmd (codes "noise=verbose")
    || bytes_eq cmd (codes "noise=normal")

respond-reply :
    (privileged : Bool) (cmd : Bytes) (mon : Monitor)
    → (respond privileged cmd mon).0 ≡ (
        if bytes_eq cmd (codes "status")
        then monitor_state_name mon.state
        else if is_order cmd
        then (if privileged then codes "ok" else codes "denied")
        else codes "error")
unfolding respond
respond-reply privileged cmd mon = ground arith

-- Every reply is plain.
respond-IsPlain :
    (privileged : Bool) (cmd : Bytes) (mon : Monitor) → IsPlain ((respond privileged cmd mon).0)
respond-IsPlain privileged cmd mon = subst IsPlain (sym (respond-reply privileged cmd mon)) (
    chosen-IsPlain (bytes_eq cmd (codes "status")) (monitor_state_name mon.state) _
      (state-IsPlain mon.state)
      (chosen-IsPlain (is_order cmd) (if privileged then codes "ok" else codes "denied")
        (codes "error")
        (chosen-IsPlain privileged (codes "ok") (codes "denied") ok-IsPlain denied-IsPlain)
        error-IsPlain))

banner-IsPlain : IsPlain banner
unfolding strip_space keep_before
banner-IsPlain = ground arith

-- The monitor's greeting is read as its version.
pub monitor_client_connect-banner :
    (pid : ℕ) (junk : Bytes)
    → monitor_client_connect (greets pid (request_line banner)) junk ≡ connected pid 20220303
unfolding monitor_client_connect
monitor_client_connect-banner pid junk =
    rw (monitor_client_connect, line_read banner junk banner-IsPlain) refl

-- A client of a user that sends one command, which is read whole with one call, at the time of the
-- connection, and then closes the connection.
abbrev pub one_request : ℕ → ℕ → Bytes → Bytes → Connection
one_request uid now cmd junk = record {
  accepted = true;
  peer_uid = some uid;
  banner_sent = true;
  opened_at = now;
  junk = junk;
  events = received (request_line cmd) true now ∷ closed ∷ [];
}

-- What the client gets of the monitor's replies.
abbrev pub carry : List Bytes → Carried
carry [] = lost econnreset
carry (r ∷ rs) = answered (request_line r)

-- One request of a client in an undisturbed course, in which the banner, the command and the reply are
-- each carried whole, in time and once: what the client is told, and the monitor afterwards. Each
-- side's buffer holds what it held.
abbrev pub exchange : ℕ → ℕ → ℕ → ℕ → Bytes → Bytes → Bytes → Monitor → Reply × Monitor
exchange pid uid cmd_uid now cmd server_buf client_buf mon =
    let served = monitor_control_socket_ingest (one_request uid now cmd server_buf) cmd_uid mon in
    (
      monitor_control (monitor_client_connect (greets pid (request_line banner)) client_buf) cmd
          client_buf (carry served.replies),
      served.monitor,
    )

-- The session of one request.
served_line :
    (privileged : Bool) (now : ℕ) (c : ℕ) (input buf : Bytes) (mon : Monitor)
    → session privileged
        (now + max_session_duration)
        now
        buf
        mon
        (received (c ∷ input) true now ∷ closed ∷ [])
      ≡ add_reply
          (serve privileged (c ∷ input) buf mon).0
          (end_session true (serve privileged (c ∷ input) buf mon).1)
unfolding session end_round
served_line privileged now c input buf mon = ground arith

serve-respond :
    (privileged : Bool) (cmd buf : Bytes) (mon : Monitor)
    → IsPlain cmd
    → ((serve privileged (request_line cmd) buf mon).0 ≡ (respond privileged cmd mon).0)
      × ((serve privileged (request_line cmd) buf mon).1 ≡ (respond privileged cmd mon).1)
unfolding serve
serve-respond privileged cmd buf mon plain =
    let e = line_read cmd buf plain in
    (ap (λ c. (respond privileged c mon).0) e, ap (λ c. (respond privileged c mon).1) e)

served_request :
    (privileged : Bool) (now : ℕ) (cmd buf : Bytes) (mon : Monitor)
    → session privileged
        (now + max_session_duration)
        now
        buf
        mon
        (received (request_line cmd) true now ∷ closed ∷ [])
      ≡ add_reply
          (serve privileged (request_line cmd) buf mon).0
          (end_session true (serve privileged (request_line cmd) buf mon).1)
served_request privileged now [] buf mon = served_line privileged now _ _ buf mon
served_request privileged now (c ∷ cmd) buf mon = served_line privileged now _ _ buf mon

served_once :
    (uid cmd_uid now : ℕ) (cmd junk : Bytes) (mon : Monitor)
    → IsPlain cmd
    → monitor_control_socket_ingest (one_request uid now cmd junk) cmd_uid mon
      ≡ add_reply
          (respond (is_privileged uid cmd_uid) cmd mon).0
          (end_session true (respond (is_privileged uid cmd_uid) cmd mon).1)
unfolding monitor_control_socket_ingest ingest_from
served_once uid cmd_uid now cmd junk mon plain =
    let buf = stored_reply banner junk in
    let (told, left) = serve-respond (is_privileged uid cmd_uid) cmd buf mon plain in
    served_request (is_privileged uid cmd_uid) now cmd buf mon
    ∙ ap
        (λ r.
          add_reply r
            (end_session true (serve (is_privileged uid cmd_uid) (request_line cmd) buf mon).1))
        told
    ∙ ap (λ m. add_reply (respond (is_privileged uid cmd_uid) cmd mon).0 (end_session true m)) left

-- A client of the monitor is told what the monitor answers to the very command that it asks for, for
-- its user, and the monitor is as that answer leaves it, whatever is in the buffers, where the command
-- has fewer than 4094 bytes, no NUL and no white space at its end.
pub exchange-respond :
    (pid uid cmd_uid now : ℕ) (cmd server_buf client_buf : Bytes) (mon : Monitor)
    → length cmd < 4094
    → IsPlain cmd
    → exchange pid uid cmd_uid now cmd server_buf client_buf mon ≡ (
      response (respond (is_privileged uid cmd_uid) cmd mon).0,
      (respond (is_privileged uid cmd_uid) cmd mon).1,
    )
unfolding monitor_control receive
exchange-respond pid uid cmd_uid now cmd server_buf client_buf mon short plain =
    let privileged = is_privileged uid cmd_uid in
    rw
      (
        served_once uid cmd_uid now cmd server_buf mon plain,
        monitor_client_connect-banner pid client_buf,
        line_read ((respond privileged cmd mon).0) (stored_reply cmd client_buf)
            (respond-IsPlain privileged cmd mon),
      )
      (ground arith)

state_told :
    (s : MonitorState)
    → s ≢ MonitorState.error
    → monitor_control_get_state (response (monitor_state_name s)) ≡ got s
unfolding monitor_control_get_state monitor_state_from_name find_state monitor_state_name bytes_eq
state_told MonitorState.error ne = absurd (ne refl)
state_told _ ne = refl

status-IsPlain : IsPlain (codes "status")
unfolding strip_space keep_before
status-IsPlain = ground arith

-- A client, privileged or not, that asks a monitor for the state is told the state, and the monitor is
-- left as it is, where that state is not the error state, and the banner, the command and the reply are
-- each carried whole, in time and once. What the buffers of both sides held makes no difference.
pub exchange-status :
    (pid uid cmd_uid now : ℕ) (server_buf client_buf : Bytes) (mon : Monitor)
    → mon.state ≢ MonitorState.error
    → (monitor_control_get_state
          (exchange pid uid cmd_uid now (codes "status") server_buf client_buf mon).0
        ≡ got mon.state)
      × ((exchange pid uid cmd_uid now (codes "status") server_buf client_buf mon).1 ≡ mon)
unfolding respond bytes_eq
exchange-status pid uid cmd_uid now server_buf client_buf mon ne =
    let e =
      exchange-respond pid uid cmd_uid now (codes "status") server_buf client_buf mon (omega arith)
        status-IsPlain in
    (ap (λ x. monitor_control_get_state x.0) e ∙ state_told mon.state ne, ap (λ x. x.1) e)

stop-IsPlain : IsPlain (codes "stop")
unfolding strip_space keep_before
stop-IsPlain = ground arith

stop_answer :
    (privileged : Bool) (mon : Monitor)
    → rank mon.state < rank stopping
    → stop_state (got mon.state) (response (respond privileged (codes "stop") mon).0)
      ≡ (if privileged then got stopping else failure eperm)
unfolding respond bytes_eq stop_state commanded
stop_answer true mon early = ground arith
stop_answer false mon early = ground arith

stop_effect :
    (privileged : Bool) (mon : Monitor)
    → rank mon.state < rank stopping
    → (respond privileged (codes "stop") mon).1
      ≡ (if privileged then monitor_set_state mon stopping else mon)
unfolding respond bytes_eq
stop_effect true mon early = ground arith
stop_effect false mon early = refl

-- A client that asks a monitor to stop while the service is not stopping or stopped yet is told that
-- it is stopping, and then it is, if the client is privileged; otherwise the client has the error
-- EPERM, and the monitor is left as it is. This is where the banner, the command and the reply are
-- each carried whole, in time and once.
pub exchange-stop :
    (pid uid cmd_uid now : ℕ) (server_buf client_buf : Bytes) (mon : Monitor)
    → rank mon.state < rank stopping
    → (stop_state
          (got mon.state)
          (exchange pid uid cmd_uid now (codes "stop") server_buf client_buf mon).0
        ≡ (if is_privileged uid cmd_uid then got stopping else failure eperm))
      × ((exchange pid uid cmd_uid now (codes "stop") server_buf client_buf mon).1
          ≡ (if is_privileged uid cmd_uid then monitor_set_state mon stopping else mon))
exchange-stop pid uid cmd_uid now server_buf client_buf mon early =
    let e =
      exchange-respond pid uid cmd_uid now (codes "stop") server_buf client_buf mon (omega arith)
        stop-IsPlain in
    (
      ap (λ x. stop_state (got mon.state) x.0) e
          ∙ stop_answer (is_privileged uid cmd_uid) mon early,
      ap (λ x. x.1) e ∙ stop_effect (is_privileged uid cmd_uid) mon early,
    )
