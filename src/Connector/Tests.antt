-- ===== src/Connector/Tests.antt =====
-- Instances of the theorems on the process connector, and runs of its operations.
use sysvkit.Base.{ℕ, ◌+◌, ◌≡◌, ◌≤◌, refl, true, false, none, some, List, [], ◌∷◌, arith}
use sysvkit.Procwatch.Events.{ack, fork}
use sysvkit.Connector.{
  Connector, polled, poll_timeout, recv_failed, Datagram, datagram, returns, refuses, aborted,
  cn_proc_receive_event, cn_proc_listen, cn_proc_connect, cn_proc_disconnect, procwatch_reconnect,
}
use sysvkit.Connector.Balance.{Call, Tally, one_if, listen_all, listen_all-IsBalanced}

-- An acknowledgement, and the report of a fork in front of it.
abbrev acknowledgement : ℕ → Datagram
acknowledgement err = record {
  size = 76;
  nlmsg_len = 76;
  idx = 1;
  val = 1;
  len = 40;
  event = ack;
  err = err;
}

abbrev fork_report : Datagram
fork_report = record {
  size = 76;
  nlmsg_len = 76;
  idx = 1;
  val = 1;
  len = 40;
  event = fork 100 200 200;
  err = 0;
}

abbrev off : Connector
off = record { open_socket = true; listening = false }

-- Events are enabled, and disabled with no acknowledgement.
abbrev on_and_off : List Call
on_and_off =
    record {
      endis = true;
      sent = some 40;
      rounds =
          (polled false true, datagram fork_report)
          ∷ (polled false true, datagram (acknowledgement 0))
          ∷ [];
    }
    ∷ record { endis = false; sent = some 40; rounds = (poll_timeout, recv_failed 0) ∷ [] }
    ∷ []

abbrev before : Tally
before = record { connector = off; enables = 0; disables = 0 }

abbrev after : Tally
after = record { connector = off; enables = 1; disables = 1 }

balanced_run : listen_all on_and_off before ≡ some after
unfolding listen_all
balanced_run = refl

listen_all-IsBalanced_example : after.disables + one_if after.connector.listening ≤ after.enables
unfolding listen_all
listen_all-IsBalanced_example =
    listen_all-IsBalanced on_and_off before after (refl, (refl, tt)) (omega arith) balanced_run

-- A disabling message that is not sent is not counted, and the flag is taken back all the same.
abbrev disable_unsent : List Call
disable_unsent =
    record { endis = false; sent = none; rounds = (poll_timeout, recv_failed 0) ∷ [] } ∷ []

unsent_disable :
    listen_all disable_unsent
      (record { connector = record off { listening = true }; enables = 1; disables = 0 })
    ≡ some (record { connector = off; enables = 1; disables = 0 })
unfolding listen_all
unsent_disable = refl

-- A message that could not be sent counts as sent: the acknowledgement of another process's message
-- is then taken for its own.
failed_send_enables :
    cn_proc_listen true none ((polled false true, datagram (acknowledgement 0)) ∷ []) off
    ≡ returns true (record off { listening = true })
unfolding cn_proc_listen
failed_send_enables = refl

refused_enable :
    cn_proc_listen true (some 40) ((polled false true, datagram (acknowledgement 1)) ∷ []) off
    ≡ refuses off
unfolding cn_proc_listen
refused_enable = refl

-- A valid message that is too short for an event ends the program.
short_event :
    cn_proc_receive_event
      (polled false true)
      (datagram (record fork_report { size = 40; nlmsg_len = 40; len = 4 }))
    ≡ aborted
unfolding cn_proc_receive_event
short_event = refl

no_bind :
    cn_proc_connect true false (record { open_socket = false; listening = false })
    ≡ (false, record { open_socket = false; listening = false })
unfolding cn_proc_connect
no_bind = refl

disconnected :
    cn_proc_disconnect
      (some 40)
      ((poll_timeout, recv_failed 0) ∷ [])
      (record { open_socket = true; listening = true })
    ≡ some (record { open_socket = false; listening = false })
unfolding cn_proc_disconnect
disconnected = refl

-- Where the disabling message is refused, the flag stays set over the reconnection, which then sends
-- nothing on the new socket.
reconnect_sends_nothing :
    procwatch_reconnect
      (some 40)
      ((polled false true, datagram (acknowledgement 1)) ∷ [])
      true
      true
      none
      []
      (record { open_socket = true; listening = true })
    ≡ some (true, record { open_socket = true; listening = true })
unfolding procwatch_reconnect
reconnect_sends_nothing = refl
