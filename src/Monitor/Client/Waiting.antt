-- ===== src/Monitor/Client/Waiting.antt =====
-- How the client's requests end.
use sysvkit.Base.{
  ℕ, ◌+◌, ◌*◌, ◌%◌, ◌^◌, ◌≤◌, ◌<◌, ◌≡◌, ◌≢◌, refl, inl, inr, true, false, Option, some, List, [],
  ◌∷◌, Bytes, codes, bytes_eq, ltb, length, arith, Bool-cases, etimedout,
}
use sysvkit.Monitor.{
  MonitorState, error, idle, restarting, starting, running, remaining, stopping, stopped, failed,
  dead, state_eq,
}
use sysvkit.Monitor.Client.{
  Reply, no_reply, response, Answer, failure, got, monitor_control_get_state, awaited, settles,
  Waited, waiting, returns, monitor_poll_interval, wait_loop, deadline_of, monitor_control_wait,
  commanded, stop_state, wait_if, monitor_control_stop,
}

-- The clock shows at least one interval more after each poll, as usleep promises.
abbrev pub IsPaced : ℕ → List (Reply × ℕ) → Type 0
IsPaced now [] = Unit
IsPaced now ((r, clock) ∷ polls) = (now + monitor_poll_interval ≤ clock) × IsPaced clock polls

returned : (a : Answer) → returns a ≢ waiting
returned a = λ e. absurd (disjoint e)
  where
    disjoint : returns a ≡ waiting → ⊥
    disjoint e = cc

wait_loop_ends :
    (mask : List MonitorState) (deadline now : ℕ) (polls : List (Reply × ℕ))
    → IsPaced now polls
    → deadline ≤ now + monitor_poll_interval * length polls
    → wait_loop mask deadline now polls ≢ waiting
unfolding wait_loop
wait_loop_ends mask deadline now [] p b = ground arith
wait_loop_ends mask deadline now ((r, clock) ∷ polls) (h, hs) b =
    elim (Bool-cases (ltb now deadline)) [
      | inl e ↦ elim (Bool-cases (settles mask (monitor_control_get_state r))) [
        | inl f ↦ rw (e, f) (returned (monitor_control_get_state r))
        | inr f ↦ rw (e, f) (wait_loop_ends mask deadline clock polls hs (omega arith))
      ]
      | inr e ↦ rw (e) (returned (failure etimedout))
    ]

-- With a timeout of `ms` milliseconds, and a clock that does not wrap, monitor_control_wait returns
-- after no more polls than it takes intervals to cover the timeout.
pub monitor_control_wait_ends :
    (mask : List MonitorState) (ms : ℕ) (first : Reply) (now : ℕ) (polls : List (Reply × ℕ))
    → IsPaced now polls
    → now + ms * 1000 < 2 ^ 64
    → ms * 1000 ≤ monitor_poll_interval * length polls
    → monitor_control_wait mask (some ms) first now polls ≢ waiting
unfolding monitor_control_wait deadline_of
monitor_control_wait_ends mask ms first now polls p w b =
    elim (Bool-cases (settles mask (monitor_control_get_state first))) [
      | inl e ↦ rw (e) (returned (monitor_control_get_state first))
      | inr e ↦
          rw (e) (
            wait_loop_ends mask ((now + ms * 1000) % 2 ^ 64) now polls p
              (bound now (ms * 1000) w b))
    ]
  where
    bound :
        (now t : ℕ)
        → now + t < 2 ^ 64
        → t ≤ monitor_poll_interval * length polls
        → (now + t) % 2 ^ 64 ≤ now + monitor_poll_interval * length polls
    bound now t w b = omega arith

-- A result that is no error is a state that was waited for.
abbrev pub EndsAwaited : List MonitorState → Waited → Type 0
EndsAwaited mask waiting = Unit
EndsAwaited mask (returns (failure n)) = Unit
EndsAwaited mask (returns (got s)) = awaited mask s ≡ true

settled :
    (mask : List MonitorState) (a : Answer) → settles mask a ≡ true → EndsAwaited mask (returns a)
unfolding settles
settled mask (failure n) h = tt
settled mask (got s) h = h

wait_loop_sound :
    (mask : List MonitorState) (deadline now : ℕ) (polls : List (Reply × ℕ))
    → EndsAwaited mask (wait_loop mask deadline now polls)
unfolding wait_loop
wait_loop_sound mask deadline now [] = elim (Bool-cases (ltb now deadline)) [
  | inl e ↦ rw (e) tt
  | inr e ↦ rw (e) tt
]
wait_loop_sound mask deadline now ((r, clock) ∷ polls) = elim (Bool-cases (ltb now deadline)) [
  | inl e ↦ elim (Bool-cases (settles mask (monitor_control_get_state r))) [
    | inl f ↦ rw (e, f) (settled mask (monitor_control_get_state r) f)
    | inr f ↦ rw (e, f) (wait_loop_sound mask deadline clock polls)
  ]
  | inr e ↦ rw (e) tt
]

wait_sound :
    (mask : List MonitorState) (timeout : Option ℕ) (first : Reply) (now : ℕ)
    (polls : List (Reply × ℕ))
    → EndsAwaited mask (monitor_control_wait mask timeout first now polls)
unfolding monitor_control_wait
wait_sound mask timeout first now polls =
    elim (Bool-cases (settles mask (monitor_control_get_state first))) [
      | inl e ↦ rw (e) (settled mask (monitor_control_get_state first) e)
      | inr e ↦ rw (e) (wait_loop_sound mask (deadline_of timeout now) now polls)
    ]

command_sent :
    (mask : List MonitorState) (w : Waited) (before : Answer) (r : Bytes)
    → EndsAwaited mask w
    → EndsAwaited mask (wait_if stopping w (commanded before stopping (response r)))
unfolding wait_if commanded
command_sent mask w before r h = elim (Bool-cases (bytes_eq r (codes "ok"))) [
  | inl e ↦ rw (e) h
  | inr e ↦ elim (Bool-cases (bytes_eq r (codes "denied"))) [
    | inl f ↦ rw (e, f) tt
    | inr f ↦ rw (e, f) tt
  ]
]

stop_settles :
    (a : Answer) (w : Waited) (r : Bytes)
    → EndsAwaited (stopped ∷ []) w
    → EndsAwaited (stopped ∷ []) (wait_if stopping w (stop_state a (response r)))
unfolding wait_if stop_state awaited
stop_settles (failure n) w r h = tt
stop_settles (got stopped) w r h = refl
stop_settles (got stopping) w r h = h
stop_settles (got error) w r h = command_sent (stopped ∷ []) w (got error) r h
stop_settles (got idle) w r h = command_sent (stopped ∷ []) w (got idle) r h
stop_settles (got restarting) w r h = command_sent (stopped ∷ []) w (got restarting) r h
stop_settles (got starting) w r h = command_sent (stopped ∷ []) w (got starting) r h
stop_settles (got running) w r h = command_sent (stopped ∷ []) w (got running) r h
stop_settles (got remaining) w r h = command_sent (stopped ∷ []) w (got remaining) r h
stop_settles (got failed) w r h = command_sent (stopped ∷ []) w (got failed) r h
stop_settles (got dead) w r h = command_sent (stopped ∷ []) w (got dead) r h

-- When the monitor answers the stop command, the only state that monitor_control_stop returns is
-- MS_STOPPED: every other result is an error.
pub monitor_control_stop_settles :
    (timeout : Option ℕ) (status : Reply) (r : Bytes) (first : Reply) (now : ℕ)
    (polls : List (Reply × ℕ))
    → EndsAwaited (stopped ∷ []) (monitor_control_stop timeout status (response r) first now polls)
unfolding monitor_control_stop
monitor_control_stop_settles timeout status r first now polls =
    stop_settles (monitor_control_get_state status)
      (monitor_control_wait (stopped ∷ []) timeout first now polls) r
      (wait_sound (stopped ∷ []) timeout first now polls)

-- When sending the stop command fails, monitor_control_stop does not return an error: it returns the
-- state that the monitor reported before, unless that is stopped or stopping.
pub monitor_control_stop_unsent :
    (timeout : Option ℕ) (status : Reply) (s : MonitorState) (n : ℕ) (first : Reply) (now : ℕ)
    (polls : List (Reply × ℕ))
    → monitor_control_get_state status ≡ got s
    → state_eq s stopped ≡ false
    → state_eq s stopping ≡ false
    → monitor_control_stop timeout status (no_reply n) first now polls ≡ returns (got s)
unfolding monitor_control_stop wait_if stop_state commanded
monitor_control_stop_unsent timeout status s n first now polls e h k = rw (e, h, k) (rw (k) refl)
