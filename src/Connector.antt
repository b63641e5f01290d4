-- ===== src/Connector.antt =====
-- The process event connector of src/common/cn_proc.c, by what the system calls return.
pub mod Balance
pub mod Valid
mod Tests
use sysvkit.Base.{
  ℕ, zero, suc, ◌+◌, ◌-◌, Bool, true, false, not, ◌&&◌, ◌||◌, Option, none, some, List, [], ◌∷◌,
  ◌==◌, ltb, if◌then◌else◌, etimedout, eproto,
}
use sysvkit.Procwatch.Events.{Event, ack}

abbrev pub epipe : ℕ
epipe = 32

abbrev pub eio : ℕ
eio = 5

abbrev pub ecomm : ℕ
ecomm = 70

abbrev pub ebadf : ℕ
ebadf = 9

-- The static variables: whether there is a socket, and whether events are enabled.
pub record Connector : Type 0 where
  pub open_socket : Bool
  pub listening : Bool

-- sizeof(struct nlmsghdr), sizeof(struct cn_msg), PROC_EVENT_MIN_SIZE
abbrev pub netlink_header : ℕ
netlink_header = 16

abbrev pub connector_header : ℕ
connector_header = 20

abbrev pub event_min_size : ℕ
event_min_size = 24

-- The result of poll: its errno, no event in time, or the events that it reports.
pub data Polled : Type 0 where
  poll_failed : ℕ → Polled
  poll_timeout : Polled
  polled : (pollerr pollin : Bool) → Polled

-- A datagram: its length as recvmsg returns it, what the headers say, and the event in it; `err` is
-- that of an acknowledgement.
pub record Datagram : Type 0 where
  pub size : ℕ
  pub nlmsg_len : ℕ
  pub idx : ℕ
  pub val : ℕ
  pub len : ℕ
  pub event : Event
  pub err : ℕ

pub data Received : Type 0 where
  recv_failed : ℕ → Received
  datagram : Datagram → Received

-- -1 with errno, or the length of the message.
pub data Length : Type 0 where
  failed : ℕ → Length
  got : ℕ → Length

-- The checks behind recvmsg.
unfoldable pub validate : Datagram → Length
validate d =
    if ltb d.size netlink_header || not (d.size == d.nlmsg_len)
    then failed eproto
    else if ltb (d.size - netlink_header) connector_header
    then failed eproto
    else if not (d.idx == 1) || not (d.val == 1)
    then failed eproto
    else if not (d.size - netlink_header - connector_header == d.len)
    then failed eproto
    else got (d.size - netlink_header - connector_header)

unfoldable pub receive : Received → Length
unfolding validate
receive (recv_failed e) = failed e
receive (datagram d) = validate d

unfoldable pub cn_proc_receive : Polled → Received → Length
unfolding receive
cn_proc_receive (poll_failed e) r = failed e
cn_proc_receive poll_timeout r = failed etimedout
cn_proc_receive (polled pollerr pollin) r =
    if pollerr then failed epipe else if not pollin then failed eio else receive r

-- An event, an error, or fatal().
pub data Arrival : Type 0 where
  no_event : ℕ → Arrival
  arrived : Datagram → Arrival
  aborted : Arrival

-- What the buffer holds when the message is valid.
unfoldable pub event_of : Received → Length → Arrival
event_of r (failed e) = no_event e
event_of (recv_failed e) (got n) = no_event e
event_of (datagram d) (got n) = if ltb n event_min_size then aborted else arrived d

unfoldable pub cn_proc_receive_event : Polled → Received → Arrival
unfolding cn_proc_receive event_of
cn_proc_receive_event p r = event_of r (cn_proc_receive p r)

-- sendmsg: none for -1, or the bytes sent; the message has both headers and its data. none for -1.
unfoldable pub cn_proc_send : ℕ → Option ℕ → Option ℕ
cn_proc_send len none = none
cn_proc_send len (some n) =
    if not (n == netlink_header + connector_header + len) then none else some n

-- if (!cn_proc_send(...))
unfoldable pub sent_nothing : Option ℕ → Bool
sent_nothing none = false
sent_nothing (some n) = n == 0

-- The end of a call of cn_proc_listen: what it returns with the variables then, fatal(), or a wait
-- that the given messages do not end. `accepted` tells whether the acknowledgement was an error.
pub data Listened : Type 0 where
  returns : Bool → Connector → Listened
  refuses : Connector → Listened
  fatal : Listened
  waits : Listened

-- Behind the loop.
unfoldable pub give_up : Bool → Connector → Listened
give_up endis c = returns false (if not endis then record c { listening = false } else c)

unfoldable pub acknowledged : Bool → ℕ → Connector → Listened
acknowledged endis err c =
    if not (err == 0) then refuses c else returns true (record c { listening = endis })

unfoldable pub is_ack : Event → Bool
is_ack ack = true
is_ack _ = false

-- The loop that waits for the acknowledgement.
unfoldable pub await_ack : Bool → Connector → List (Polled × Received) → Listened
unfolding cn_proc_receive_event is_ack acknowledged give_up
await_ack endis c [] = waits
await_ack endis c ((p, r) ∷ rounds) =
    let later = await_ack endis c rounds in
    elim (cn_proc_receive_event p r) [
      | no_event e ↦ give_up endis c
      | aborted ↦ fatal
      | arrived d ↦ if is_ack d.event then acknowledged endis d.err c else later
    ]

-- `sent` is what sendmsg returns.
unfoldable pub cn_proc_listen : Bool → Option ℕ → List (Polled × Received) → Connector → Listened
unfolding cn_proc_send sent_nothing await_ack
cn_proc_listen true sent rounds c =
    if c.listening
    then returns true c
    else if sent_nothing (cn_proc_send 4 sent)
    then returns false c
    else await_ack true c rounds
cn_proc_listen false sent rounds c =
    if not c.listening
    then returns true c
    else if sent_nothing (cn_proc_send 4 sent)
    then returns false c
    else await_ack false c rounds

-- The connection: whether socket and bind work.
unfoldable pub cn_proc_connect : Bool → Bool → Connector → Bool × Connector
cn_proc_connect socket_ok bind_ok c =
    if c.open_socket
    then (true, c)
    else if not socket_ok
    then (false, c)
    else if not bind_ok
    then (false, c)
    else (true, record c { open_socket = true })

-- none where the disconnection aborts or waits.
unfoldable pub closed : Listened → Option Connector
closed (returns ok c) = some (record c { open_socket = false })
closed (refuses c) = some (record c { open_socket = false })
closed fatal = none
closed waits = none

unfoldable pub cn_proc_disconnect :
    Option ℕ → List (Polled × Received) → Connector → Option Connector
unfolding closed cn_proc_listen
cn_proc_disconnect sent rounds c =
    if not c.open_socket
    then some c
    else if c.listening
    then closed (cn_proc_listen false sent rounds c)
    else some (record c { open_socket = false })

-- procwatch_reconnect of src/common/procwatch.c; none where a call aborts or waits.
unfoldable pub enabled : Listened → Option (Bool × Connector)
enabled (returns ok c) = some (ok, c)
enabled (refuses c) = some (false, c)
enabled fatal = none
enabled waits = none

unfoldable pub reconnect_closed :
    Bool → Bool → Option ℕ → List (Polled × Received) → Connector → Option (Bool × Connector)
unfolding enabled cn_proc_connect cn_proc_listen
reconnect_closed socket_ok bind_ok sent rounds c =
    let (ok, c') = cn_proc_connect socket_ok bind_ok c in
    if ok then enabled (cn_proc_listen true sent rounds c') else some (false, c')

unfoldable pub procwatch_reconnect :
    Option ℕ
    → List (Polled × Received)
    → Bool
    → Bool
    → Option ℕ
    → List (Polled × Received)
    → Connector
    → Option (Bool × Connector)
unfolding cn_proc_disconnect reconnect_closed
procwatch_reconnect unsent unrounds socket_ok bind_ok sent rounds c =
    elim (cn_proc_disconnect unsent unrounds c) [
      | none ↦ none
      | some c' ↦ reconnect_closed socket_ok bind_ok sent rounds c'
    ]
