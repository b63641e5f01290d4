-- ===== src/Procwatch/Events.antt =====
-- procwatch_ingest of src/common/procwatch.c, the callback of src/sysvrun/monitor.c, and the loop of
-- that file that collects processes.
use sysvkit.Base.{ℕ, Bool, true, false, not, Option, none, some, ◌==◌, if◌then◌else◌}
use sysvkit.Procwatch.Store.{Process, dangling, M, pure, fail, ◌>>=◌, ◌>>◌, load}
use sysvkit.Procwatch.Operations.{
  process_get, process_insert, process_exit, process_drop, process_collect, process_destroy,
}

-- struct proc_event, by what it holds of the thread groups; `ack` is PROC_EVENT_NONE.
pub data Event : Type 0 where
  ack : Event
  fork : (parent_tgid child_tid child_tgid : ℕ) → Event
  exec : (tgid : ℕ) → Event
  credentials : (tgid : ℕ) → Event
  new_session : (tgid : ℕ) → Event
  name_change : (tgid : ℕ) → Event
  core_dump : (tgid : ℕ) → Event
  exit : (tgid code signal : ℕ) → Event
  unhandled : (what tgid : ℕ) → Event

pub data Action : Type 0 where
  default drop : Action

pub data WatchedEvent : Type 0 where
  on_exec on_setsid : WatchedEvent

-- The callback that is set, if there is one.
abbrev pub Callback : Type 0
Callback = Option (WatchedEvent → Process → Action)

abbrev pub sigchld : ℕ
sigchld = 17

unfoldable pub callback : Callback → WatchedEvent → Process → Action
callback none ev p = default
callback (some f) ev p = f ev p

unfoldable pub take_action : ℕ → Action → M (Unit {0})
unfolding process_drop
take_action pid default = pure tt
take_action pid drop = process_drop pid >> pure tt

-- The callback's action on a process that it is shown.
unfoldable pub act : Callback → WatchedEvent → ℕ → M (Unit {0})
unfolding load callback take_action
act cb ev a = do p ← load a; take_action p.pid (callback cb ev p)

unfoldable pub act_found : Callback → WatchedEvent → Option ℕ → M (Unit {0})
unfolding act
act_found cb ev none = pure tt
act_found cb ev (some a) = act cb ev a

-- The callback of a new session is called with whatever process_insert returns.
unfoldable pub act_inserted : Callback → Option ℕ → M (Unit {0})
unfolding act
act_inserted cb none = fail dangling
act_inserted cb (some a) = act cb on_setsid a

-- The switch over the kinds of event.
unfoldable pub handle : Callback → Event → M (Unit {0})
unfolding act_found act_inserted process_get process_insert process_exit
handle cb ack = pure tt
handle cb (fork parent tid child) =
    if not (child == tid)
    then pure tt
    else if parent == 1
    then pure tt
    else process_insert child parent 0 >> pure tt
handle cb (exec tgid) = process_get tgid >>= act_found cb on_exec
handle cb (credentials tgid) = pure tt
handle cb (new_session tgid) = process_insert tgid 0 tgid >>= act_inserted cb
handle cb (name_change tgid) = pure tt
handle cb (core_dump tgid) = pure tt
handle cb (exit tgid code signal) =
    if not (signal == sigchld) then pure tt else process_exit tgid code >> pure tt
handle cb (unhandled what tgid) = pure tt

-- The process that an event is about; an acknowledgement is about none.
unfoldable pub actor : Event → Option ℕ
actor ack = none
actor (fork parent tid child) = some parent
actor (exec tgid) = some tgid
actor (credentials tgid) = some tgid
actor (new_session tgid) = some tgid
actor (name_change tgid) = some tgid
actor (core_dump tgid) = some tgid
actor (exit tgid code signal) = some tgid
actor (unhandled what tgid) = some tgid

unfoldable pub handle_known : Callback → Event → ℕ → M Bool
unfolding process_get handle
handle_known cb ev tgid = do
  known ← process_get tgid
  elim known [ none ↦ pure true | some a ↦ handle cb ev >> pure true ]

-- none stands for an event that could not be received.
unfoldable pub procwatch_ingest : Callback → Option Event → M Bool
unfolding handle_known actor
procwatch_ingest cb none = pure false
procwatch_ingest cb (some ev) = elim (actor ev) [
  | none ↦ pure true
  | some tgid ↦ handle_known cb ev tgid
]

-- monitor_proc_event, by whether the service is of Type=forking, the session of the monitor's own
-- process and the session that it keeps: the action, and the session that it keeps then.
unfoldable pub monitor_proc_event : Bool → ℕ → ℕ → WatchedEvent → Process → Action × ℕ
monitor_proc_event forks own sid on_exec p = (default, sid)
monitor_proc_event forks own sid on_setsid p =
    if not forks then (drop, sid) else if not (sid == own) then (drop, sid) else (default, p.sid)

-- One round of the loop over process_collect: what is read of the process, which is then freed.
unfoldable pub collect_process : M (Option Process)
unfolding process_collect load process_destroy
collect_process = do
  proc ← process_collect
  elim proc [ none ↦ pure none | some a ↦ do p ← load a; process_destroy a; pure (some p) ]
