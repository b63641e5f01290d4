-- ===== src/Monitor/Exchange/Tests.antt =====
-- Instances of the theorems on a client of the control socket, and its error returns.
use sysvkit.Base.{
  ◌≡◌, refl, none, some, [], codes, replicate, if◌then◌else◌, eperm, einval, eproto, econnrefused,
  arith,
}
use sysvkit.Monitor.{Monitor, running, stopping, normal, monitor_set_state}
use sysvkit.Monitor.Control.{is_privileged, strip_space, keep_before}
use sysvkit.Monitor.Client.{no_reply, response, got, failure, monitor_control_get_state, stop_state}
use sysvkit.Monitor.Exchange.{
  fails, greets, refused, connected, monitor_client_connect, monitor_control,
  monitor_control_identify, lost, answered, receive,
}
use sysvkit.Monitor.Exchange.Agreement.{exchange, exchange-status, exchange-stop}

abbrev running_monitor : Monitor
running_monitor = record { state = running; noisy = normal; child = 7; pid = 7; wstatus = none }

exchange-status_example :
    (monitor_control_get_state
        (exchange 40 1000 33 5 (codes "status") (replicate 64 7) (codes "old\n") running_monitor).0
      ≡ got running)
    × ((exchange 40 1000 33 5 (codes "status") (replicate 64 7) (codes "old\n") running_monitor).1
        ≡ running_monitor)
exchange-status_example =
    exchange-status 40 1000 33 5 (replicate 64 7) (codes "old\n") running_monitor (λ e. cc)

exchange-stop_example :
    (stop_state
        (got running)
        (exchange 40 1000 33 5 (codes "stop") (replicate 64 7) (codes "old\n") running_monitor).0
      ≡ (if is_privileged 1000 33 then got stopping else failure eperm))
    × ((exchange 40 1000 33 5 (codes "stop") (replicate 64 7) (codes "old\n") running_monitor).1 ≡ (
        if is_privileged 1000 33
        then monitor_set_state running_monitor stopping
        else running_monitor))
exchange-stop_example =
    exchange-stop 40 1000 33 5 (replicate 64 7) (codes "old\n") running_monitor (omega arith)

-- A monitor that shuts down during the connection counts as not running.
reset_is_refused : monitor_client_connect (fails 104) [] ≡ refused econnrefused
unfolding monitor_client_connect
reset_is_refused = refl

other_protocol : monitor_client_connect (greets 40 (codes "hello\r\n")) [] ≡ refused eproto
unfolding monitor_client_connect strip_space keep_before
other_protocol = refl

newer_monitor :
    monitor_control
      (monitor_client_connect (greets 40 (codes "{\"version\": \"20990101\"}\r\n")) [])
      (codes "status")
      []
      (lost 0)
    ≡ no_reply eproto
unfolding monitor_client_connect monitor_control strip_space keep_before
newer_monitor = refl

long_command :
    monitor_control (connected 40 20220303) (replicate 4094 b'x') [] (lost 0) ≡ no_reply einval
unfolding monitor_control
long_command = refl

identified : monitor_control_identify (connected 40 20220303) ≡ some (40, 20220303)
unfolding monitor_control_identify
identified = refl

-- Where the monitor closes the connection with no reply, the client takes its own command for one.
closed_without_reply : receive (codes "status") [] (answered []) ≡ response (codes "status\r\n")
unfolding receive strip_space
closed_without_reply = refl
