-- ===== src/Monitor/Control/Safety.antt =====
-- What a control session may change.
use sysvkit.Base.{
  ℕ, ◌≡◌, refl, ◌≢◌, Bool, true, false, not, some, List, [], ◌∷◌, Bytes, ltb, if◌then◌else◌, arith,
  ◌⊎◌, inl,
}
use sysvkit.Monitor.{Monitor, monitor_set_state, restarting, stopping}
use sysvkit.Monitor.Control.{
  SessionEvent, poll_failed, timed_out, read_failed, closed, received, respond, serve, session,
  end_session, end_round, ingest_from, Connection, monitor_control_socket_ingest, is_privileged,
  Session,
}

respond_unprivileged : (cmd : Bytes) (mon : Monitor) → (respond false cmd mon).1 ≡ mon
unfolding respond
respond_unprivileged cmd mon = ground arith

serve_unprivileged : (input buf : Bytes) (mon : Monitor) → (serve false input buf mon).1 ≡ mon
unfolding serve
serve_unprivileged input buf mon = respond_unprivileged _ mon

session_unprivileged :
    (deadline now : ℕ) (buf : Bytes) (mon : Monitor) (es : List SessionEvent)
    → (session false deadline now buf mon es).monitor ≡ mon
unfolding session end_round
session_unprivileged deadline now buf mon [] = refl
session_unprivileged deadline now buf mon (poll_failed ∷ es) = refl
session_unprivileged deadline now buf mon (timed_out ∷ es) = refl
session_unprivileged deadline now buf mon (read_failed ∷ es) = refl
session_unprivileged deadline now buf mon (closed ∷ es) = refl
session_unprivileged deadline now buf mon (received [] sent next ∷ es) = refl
session_unprivileged deadline now buf mon (received (c ∷ input) sent next ∷ es) =
    let served = serve false (c ∷ input) buf mon in
    ground (
      arith,
      serve_unprivileged (c ∷ input) buf mon,
      session_unprivileged deadline next served.2 served.1 es,
    )

unprivileged : (uid cmd_uid : ℕ) → uid ≢ 0 → uid ≢ cmd_uid → is_privileged uid cmd_uid ≡ false
unfolding is_privileged
unprivileged uid cmd_uid h k = ground arith

-- An early return leaves the monitor alone.
rejected :
    (b : Bool) (mon : Monitor) (s : Session)
    → s.monitor ≡ mon
    → (let t : Session = if b then end_session false mon else s in t.monitor) ≡ mon
rejected true mon s h = refl
rejected false mon s h = h

-- A client that is neither root nor the service's user changes nothing of the monitor, whatever it
-- sends and however the session ends.
pub monitor_control_socket_ingest_unprivileged :
    (conn : Connection) (cmd_uid uid : ℕ) (mon : Monitor)
    → conn.peer_uid ≡ some uid
    → uid ≢ 0
    → uid ≢ cmd_uid
    → (monitor_control_socket_ingest conn cmd_uid mon).monitor ≡ mon
unfolding monitor_control_socket_ingest ingest_from
monitor_control_socket_ingest_unprivileged conn cmd_uid uid mon peer root user = rw peer (
    rejected (not conn.accepted) mon _ (
      rejected (not conn.banner_sent) mon _ (
        rw (unprivileged uid cmd_uid root user)
          (session_unprivileged _ conn.opened_at _ mon conn.events))))

-- What a privileged client can do to the state: nothing, a stop order or a restart order.
abbrev pub Ordered : Monitor → Monitor → Type 0
Ordered mon mon' =
    ((mon'.state ≡ mon.state) ⊎ (mon'.state ≡ stopping) ⊎ (mon'.state ≡ restarting))
    × (mon'.child ≡ mon.child)
    × (mon'.pid ≡ mon.pid)
    × (mon'.wstatus ≡ mon.wstatus)

respond-Ordered :
    (privileged : Bool) (cmd : Bytes) (mon : Monitor) → Ordered mon (respond privileged cmd mon).1
unfolding respond monitor_set_state
respond-Ordered privileged cmd mon = ground arith

Ordered-refl : (mon : Monitor) → Ordered mon mon
Ordered-refl mon = (inl refl, refl, refl, refl)

Ordered-trans : (a b c : Monitor) → Ordered a b → Ordered b c → Ordered a c
Ordered-trans a b c h k = ground arith

end_round-Ordered :
    (timely sent : Bool) (mon mon' : Monitor) (rest : Session) (reply : Bytes)
    → Ordered mon mon'
    → Ordered mon rest.monitor
    → Ordered mon (end_round timely sent mon mon' reply rest).monitor
unfolding end_round
end_round-Ordered false sent mon mon' rest reply h k = Ordered-refl mon
end_round-Ordered true false mon mon' rest reply h k = h
end_round-Ordered true true mon mon' rest reply h k = k

-- Whatever a client sends, and whoever it is, a session leaves the monitor's processes and wait
-- status alone, and its state is as before, or that of a stop order, or that of a restart order.
pub session-Ordered :
    (privileged : Bool) (deadline now : ℕ) (buf : Bytes) (mon : Monitor) (es : List SessionEvent)
    → Ordered mon (session privileged deadline now buf mon es).monitor
unfolding session serve
session-Ordered privileged deadline now buf mon [] = Ordered-refl mon
session-Ordered privileged deadline now buf mon (poll_failed ∷ es) = Ordered-refl mon
session-Ordered privileged deadline now buf mon (timed_out ∷ es) = Ordered-refl mon
session-Ordered privileged deadline now buf mon (read_failed ∷ es) = Ordered-refl mon
session-Ordered privileged deadline now buf mon (closed ∷ es) = Ordered-refl mon
session-Ordered privileged deadline now buf mon (received [] sent next ∷ es) = Ordered-refl mon
session-Ordered privileged deadline now buf mon (received (c ∷ input) sent next ∷ es) =
    let (reply, mon', buf') = serve privileged (c ∷ input) buf mon in
    let one : Ordered mon mon' = respond-Ordered privileged _ mon in
    let rest = session privileged deadline next buf' mon' es in
    let later = session-Ordered privileged deadline next buf' mon' es in
    end_round-Ordered (ltb now deadline) sent mon mon' rest reply one
      (Ordered-trans mon mon' rest.monitor one later)
