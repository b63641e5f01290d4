-- ===== src/Procwatch/Operations.antt =====
-- The operations on the process table of src/common/procwatch.c.
use sysvkit.Base.{
  ℕ, zero, suc, ◌+◌, ◌-◌, ◌%◌, ◌^◌, Bool, true, false, not, ◌&&◌, ◌||◌, Option, none, some, List,
  [], ◌∷◌, ◌++◌, length, ◌==◌, if◌then◌else◌, esrch, echild, eagain, einval,
}
use sysvkit.Procwatch.Store.{
  Process, Procs, done, failed, aborted, unending, M, pure, fail, and_then, ◌>>=◌, ◌>>◌, load,
  store, allocate, free, has, remove, get, put, pop,
}

abbrev set_errno : ℕ → M (Unit {0})
set_errno e s = done tt (record s { errno = e })

unfoldable pub process_destroy : ℕ → M (Unit {0})
unfolding free
process_destroy a = free a

unfoldable pub process_count : Procs → ℕ
process_count s = (length s.processes + 2 ^ 64 - 2) % 2 ^ 64

-- A process that is not in the table is ESRCH.
unfoldable pub process_get : ℕ → M (Option ℕ)
unfolding get
process_get pid s = elim (get pid s.processes) [
  | none ↦ done none (record s { errno = esrch })
  | some a ↦ done (some a) s
]

-- list_pop_first(proc->children)
unfoldable pub pop_child : ℕ → M (Option ℕ)
unfolding load store
pop_child a = do
  p ← load a
  elim p.children [
    | [] ↦ pure none
    | c ∷ rest ↦ do store a (record p { children = rest }); pure (some c)
  ]

unfoldable pub append_child : ℕ → ℕ → M (Unit {0})
unfolding load store
append_child a c = do q ← load a; store a (record q { children = q.children ++ (c ∷ []) })

-- A process becomes a child of init.
unfoldable pub adopt : ℕ → M (Unit {0})
unfolding load store append_child
adopt c = do p ← load c; store c (record p { ppid = 1 }); λ s. append_child s.proc_init c s

-- The loop of process_reparent_children, on the number of children that there are.
unfoldable pub reparent_loop : ℕ → ℕ → M (Unit {0})
unfolding pop_child adopt
reparent_loop zero a = do c ← pop_child a; elim c [ none ↦ pure tt | some c ↦ fail unending ]
reparent_loop (suc n) a = do
  c ← pop_child a
  elim c [ none ↦ pure tt | some c ↦ adopt c >> reparent_loop n a ]

unfoldable pub process_reparent_children : ℕ → M (Unit {0})
unfolding load reparent_loop
process_reparent_children a = do p ← load a; reparent_loop (length p.children) a

unfoldable pub remove_child : ℕ → ℕ → M (Unit {0})
unfolding load store has remove
remove_child b a = do
  q ← load b
  if has a q.children then store b (record q { children = remove a q.children }) else pure tt

unfoldable pub process_unparent : ℕ → M (Unit {0})
unfolding load process_get remove_child
process_unparent a = do
  p ← load a
  parent ← process_get p.ppid
  elim parent [ none ↦ pure tt | some b ↦ remove_child b a ]

unfoldable pub pop_table : ℕ → M (Unit {0})
unfolding pop
pop_table pid s = done tt (record s { processes = pop pid s.processes })

unfoldable pub collect_ready : ℕ → M (Option ℕ)
unfolding load process_unparent pop_table
collect_ready a = do p ← load a; process_unparent a; pop_table p.pid; pure (some a)

unfoldable pub process_collect : M (Option ℕ)
unfolding collect_ready
process_collect s =
    if length s.processes == 2 then done none (record s { errno = echild }) else elim s.ready [
      | [] ↦ done none (record s { errno = eagain })
      | a ∷ rest ↦ collect_ready a (record s { ready = rest })
    ]

-- A process that is in the table changes its parent, to init only.
unfoldable pub change_parent : ℕ → ℕ → M Bool
unfolding load store append_child process_unparent
change_parent a ppid = do
  p ← load a
  if ppid == 0 || ppid == p.ppid
      then pure true
      else if not (ppid == 1)
      then set_errno einval >> pure false
      else do
        process_unparent a
        λ s. append_child s.proc_init a s
        q ← load a
        store a (record q { ppid = 1 })
        pure true

-- And its session, to its own only.
unfoldable pub change_sid : ℕ → ℕ → ℕ → M (Option ℕ)
unfolding load store
change_sid a pid sid = do
  p ← load a
  if sid == 0 || sid == p.sid
      then pure (some a)
      else if not (sid == pid)
      then set_errno einval >> pure none
      else do store a (record p { sid = sid }); pure (some a)

unfoldable pub process_update : ℕ → ℕ → ℕ → ℕ → M (Option ℕ)
unfolding change_parent change_sid
process_update a pid ppid sid = do
  ok ← change_parent a ppid
  if ok then change_sid a pid sid else pure none

abbrev pub new_process : ℕ → ℕ → ℕ → Process
new_process pid ppid sid = record {
  pid = pid;
  ppid = ppid;
  sid = sid;
  children = [];
  wstatus = none;
}

unfoldable pub put_table : ℕ → ℕ → M (Unit {0})
unfolding put
put_table pid a s = done tt (record s { processes = put pid a s.processes })

-- init and the process itself, which have no parent.
unfoldable pub insert_root : ℕ → ℕ → ℕ → M (Option ℕ)
unfolding allocate put_table
insert_root pid ppid sid = do
  a ← allocate (new_process pid ppid sid)
  put_table pid a
  pure (some a)

unfoldable pub insert_child : ℕ → ℕ → ℕ → ℕ → M (Option ℕ)
unfolding load allocate append_child put_table
insert_child parent pid ppid sid = do
  q ← load parent
  if not (sid == 0) && not (sid == q.sid) then set_errno einval >> pure none else do
    a ← allocate (new_process pid ppid q.sid)
    append_child parent a
    put_table pid a
    pure (some a)

unfoldable pub process_insert : ℕ → ℕ → ℕ → M (Option ℕ)
unfolding process_get process_update insert_root insert_child
process_insert pid ppid sid = do
  found ← process_get pid
  elim found [
    | some a ↦ process_update a pid ppid sid
    | none ↦ if ppid == pid then insert_root pid ppid sid else do
      parent ← process_get ppid
      elim parent [ none ↦ pure none | some b ↦ insert_child b pid ppid sid ]
  ]

unfoldable pub remove_ready : ℕ → M (Unit {0})
unfolding has remove
remove_ready a s =
    if has a s.ready then done tt (record s { ready = remove a s.ready }) else done tt s

-- The loop over the children of a process that is dropped.
unfoldable pub drop_children : (ℕ → M (Unit {0})) → ℕ → ℕ → M (Unit {0})
unfolding pop_child
drop_children drop zero a = do c ← pop_child a; elim c [ none ↦ pure tt | some c ↦ fail unending ]
drop_children drop (suc n) a = do
  c ← pop_child a
  elim c [ none ↦ pure tt | some c ↦ drop c >> drop_children drop n a ]

-- What is done behind the loop.
unfoldable pub release : ℕ → M (Unit {0})
unfolding load pop_table remove_ready process_destroy
release a = do p ← load a; pop_table p.pid; remove_ready a; process_destroy a

-- The fuel bounds the depth of the tree of descendants.
unfoldable pub process_drop_recursive : ℕ → ℕ → M (Unit {0})
unfolding load store drop_children release
process_drop_recursive zero a = fail unending
process_drop_recursive (suc depth) a = do
  p ← load a
  store a (record p { ppid = 0 })
  drop_children (process_drop_recursive depth) (length p.children) a
  release a

unfoldable pub process_drop : ℕ → M Bool
unfolding process_get process_unparent process_drop_recursive
process_drop pid = do
  found ← process_get pid
  elim found [
    | none ↦ pure false
    | some a ↦ do process_unparent a; λ s. process_drop_recursive s.next a s; pure true
  ]

unfoldable pub remove_found : ℕ → ℕ → M Bool
unfolding pop_table remove_ready process_reparent_children process_destroy
remove_found pid a = do
  pop_table pid
  remove_ready a
  process_reparent_children a
  process_destroy a
  pure true

unfoldable pub process_remove : ℕ → M Bool
unfolding process_get remove_found
process_remove pid = do
  found ← process_get pid
  elim found [
    | none ↦ pure false
    | some a ↦
        λ s. if a == s.proc_init || a == s.proc_self then failed aborted else remove_found pid a s
  ]

unfoldable pub process_exit : ℕ → ℕ → M Bool
unfolding process_get load store process_reparent_children
process_exit pid wstatus = do
  found ← process_get pid
  elim found [
    | none ↦ pure false
    | some a ↦ do
      p ← load a
      store a (record p { wstatus = some wstatus })
      process_reparent_children a
      λ s. done true (record s { ready = s.ready ++ (a ∷ []) })
  ]

-- processes_init, with the ids that getpid and getsid return.
unfoldable pub processes_init : ℕ → ℕ → M (Unit {0})
unfolding process_insert
processes_init pid sid = do
  λ s. done tt (record s { processes = []; ready = [] })
  i ← process_insert 1 1 1
  λ s. done tt (record s { proc_init = elim i [ none ↦ 0 | some a ↦ a ] })
  self ← process_insert pid pid sid
  λ s. done tt (record s { proc_self = elim self [ none ↦ 0 | some a ↦ a ] })

-- The loop of processes_fini, on the elements that there are. hash_table_pop_any takes the first.
unfoldable pub fini_loop : ℕ → M (Unit {0})
unfolding pop_table process_destroy
fini_loop zero s = elim s.processes [ [] ↦ done tt s | e ∷ t ↦ failed unending ]
fini_loop (suc n) s = elim s.processes [
  | [] ↦ done tt s
  | e ∷ t ↦ (do pop_table e.0; process_destroy e.1; fini_loop n) s
]

unfoldable pub processes_fini : M (Unit {0})
unfolding fini_loop
processes_fini s =
    and_then (fini_loop (length s.processes) s)
      (λ _ s'. done tt (record s' { ready = []; proc_init = 0; proc_self = 0 }))

unfoldable pub procwatch_drain : ℕ → ℕ → M (Unit {0})
unfolding processes_fini processes_init
procwatch_drain pid sid = processes_fini >> processes_init pid sid

-- process_foreach: the structs that it shows to the function.
unfoldable pub shown : Procs → List (ℕ × ℕ) → List ℕ
shown s [] = []
shown s ((p, a) ∷ t) = if a == s.proc_init || a == s.proc_self then shown s t else a ∷ shown s t

unfoldable pub process_foreach : Procs → List ℕ
unfolding shown
process_foreach s = shown s s.processes
