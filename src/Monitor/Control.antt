-- ===== src/Monitor/Control.antt =====
-- monitor_control_socket_ingest of src/sysvrun/monitor.c: one session of a control client. The
-- socket calls and the clock are the list of events that the session meets.
pub mod Safety
pub mod Framing
use mathlib.Core.Bool.{◌||◌}
use sysvkit.Base.{
  ℕ, zero, suc, ◌+◌, ◌-◌, ◌*◌, ◌≤◌, ◌<◌, ◌≡◌, refl, ap, ◌∙◌, sym, ◌≢◌, Bool, true, false, not, ◌&&◌,
  Option, none, some, List, [], ◌∷◌, ◌++◌, append_assoc, append-nil, Bytes, codes, bytes_eq, length,
  length-append, take, drop, replicate, ltb, leb, ◌==◌, All, if◌then◌else◌, arith, ◌⊎◌, inl, inr,
  Bool-cases,
}
use sysvkit.Monitor.{
  Monitor, MonitorState, error, idle, restarting, stopping, stopped, running, Noise, debug, verbose,
  normal, rank, monitor_set_state,
}
use sysvkit.Monitor.Names.{monitor_state_name}

-- What one round of the session's loop meets: the result of poll, then of read, then whether the
-- reply could be written, and the time after that.
pub data SessionEvent : Type 0 where
  poll_failed timed_out read_failed closed : SessionEvent
  received : Bytes → Bool → ℕ → SessionEvent

-- isspace in the C locale.
abbrev pub is_space : ℕ → Bool
is_space c = c == b' ' || (leb 9 c && leb c 13)

-- `c` in front of what is kept of the bytes behind it.
unfoldable pub keep_before : ℕ → Bytes → Bytes
keep_before c [] = if is_space c then [] else c ∷ []
keep_before c (d ∷ s) = c ∷ d ∷ s

-- The loop that blanks trailing white space: the bytes that are kept.
unfoldable pub strip_space : Bytes → Bytes
strip_space [] = []
strip_space (c ∷ s) = keep_before c (strip_space s)

-- The C string in a buffer: the bytes before the first NUL.
unfoldable pub c_string : Bytes → Bytes
c_string [] = []
c_string (c ∷ s) = if c == 0 then [] else c ∷ c_string s

-- `data` stored at the start of the buffer, its trailing white space overwritten by NULs.
unfoldable pub stored_request : Bytes → Bytes → Bytes
stored_request input buf =
    let kept = strip_space input in
    kept ++ (replicate (length input - length kept) 0 ++ drop (length input) buf)

-- snprintf of a text, then "\r\n" and a NUL, at the start of the buffer.
unfoldable pub stored_reply : Bytes → Bytes → Bytes
stored_reply text buf =
    let line = text ++ (b'\r' ∷ b'\n' ∷ 0 ∷ []) in line ++ drop (length line) buf

abbrev pub banner : Bytes
banner = codes "{\"version\": \"20220303\"}"

-- The chain of comparisons: the reply and the monitor after it.
unfoldable pub respond : Bool → Bytes → Monitor → Bytes × Monitor
respond privileged cmd mon =
    if bytes_eq cmd (codes "status")
    then (monitor_state_name mon.state, mon)
    else if bytes_eq cmd (codes "stop")
    then (if privileged
        then (
          codes "ok",
          if ltb (rank mon.state) (rank stopping) then monitor_set_state mon stopping else mon,
        )
        else (codes "denied", mon))
    else if bytes_eq cmd (codes "restart")
    then (if privileged
        then (codes "ok", monitor_set_state mon restarting)
        else (codes "denied", mon))
    else if bytes_eq cmd (codes "noise=debug")
    then (if privileged then (codes "ok", record mon { noisy = debug }) else (codes "denied", mon))
    else if bytes_eq cmd (codes "noise=verbose")
    then (if privileged
        then (codes "ok", record mon { noisy = verbose })
        else (codes "denied", mon))
    else if bytes_eq cmd (codes "noise=normal")
    then (if privileged then (codes "ok", record mon { noisy = normal }) else (codes "denied", mon))
    else (codes "error", mon)

-- The return value (true for 0), the replies sent, and the monitor.
pub record Session : Type 0 where
  pub ok : Bool
  pub replies : List Bytes
  pub monitor : Monitor

abbrev pub add_reply : Bytes → Session → Session
add_reply r s = record s { replies = r ∷ s.replies }

abbrev pub end_session : Bool → Monitor → Session
end_session ok mon = record { ok = ok; replies = []; monitor = mon }

-- One request that was read: its reply, and the monitor and the buffer after the reply is sent.
unfoldable pub serve : Bool → Bytes → Bytes → Monitor → Bytes × Monitor × Bytes
serve privileged input buf mon =
    let asked = stored_request input buf in
    let (reply, mon') = respond privileged (c_string asked) mon in
    (reply, mon', stored_reply reply asked)

-- What a round with a request comes to: nothing past the deadline, an error where the reply could
-- not be written, or the reply and the later rounds.
unfoldable pub end_round : Bool → Bool → Monitor → Monitor → Bytes → Session → Session
end_round false sent mon mon' reply rest = end_session true mon
end_round true false mon mon' reply rest = end_session false mon'
end_round true true mon mon' reply rest = add_reply reply rest

-- The loop `while (now < deadline)`. Where no event is left, poll times out; a read of no byte is
-- the end of the connection.
unfoldable pub session : Bool → ℕ → ℕ → Bytes → Monitor → List SessionEvent → Session
session privileged deadline now buf mon [] = end_session true mon
session privileged deadline now buf mon (poll_failed ∷ es) =
    end_session (not (ltb now deadline)) mon
session privileged deadline now buf mon (timed_out ∷ es) = end_session true mon
session privileged deadline now buf mon (read_failed ∷ es) =
    end_session (not (ltb now deadline)) mon
session privileged deadline now buf mon (closed ∷ es) = end_session true mon
session privileged deadline now buf mon (received [] sent next ∷ es) = end_session true mon
session privileged deadline now buf mon (received (c ∷ input) sent next ∷ es) =
    let (reply, mon', buf') = serve privileged (c ∷ input) buf mon in
    end_round (ltb now deadline) sent mon mon' reply (session privileged deadline next buf' mon' es)

-- accept and getsockopt, then the banner and the session. `junk` is what the buffer held.
pub record Connection : Type 0 where
  pub accepted : Bool
  pub peer_uid : Option ℕ
  pub banner_sent : Bool
  pub opened_at : ℕ
  pub junk : Bytes
  pub events : List SessionEvent

abbrev pub max_session_duration : ℕ
max_session_duration = 100 * 1000

unfoldable pub is_privileged : ℕ → ℕ → Bool
is_privileged peer_uid cmd_uid = peer_uid == 0 || peer_uid == cmd_uid

unfoldable pub ingest_from : Option ℕ → Connection → ℕ → Monitor → Session
ingest_from none conn cmd_uid mon = end_session false mon
ingest_from (some uid) conn cmd_uid mon =
    if not conn.banner_sent
    then end_session false mon
    else session (is_privileged uid cmd_uid) (conn.opened_at + max_session_duration) conn.opened_at
        (stored_reply banner conn.junk) mon conn.events

unfoldable pub monitor_control_socket_ingest : Connection → ℕ → Monitor → Session
unfolding ingest_from
monitor_control_socket_ingest conn cmd_uid mon =
    if not conn.accepted then end_session false mon else ingest_from conn.peer_uid conn cmd_uid mon
