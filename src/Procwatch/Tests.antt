-- ===== src/Procwatch/Tests.antt =====
-- Instances of the theorems on the process table, and runs of its operations.
use sysvkit.Base.{
  ℕ, ◌<◌, ◌≡◌, ◌≢◌, ◌⊎◌, refl, true, false, length, Option, none, some, [], ◌∷◌, ◌++◌,
  if◌then◌else◌, ◌==◌, arith, echild,
}
use sysvkit.Procwatch.Store.{Process, Procs, Run, done, failed, dangling, Ends, ◌>>◌, get, put, has}
use sysvkit.Procwatch.Operations.{
  new_process, process_insert, process_drop, process_exit, process_remove, process_collect,
  processes_init, process_count,
}
use sysvkit.Procwatch.Events.{Event, procwatch_ingest, collect_process, sigchld}
use sysvkit.Procwatch.Shape.{IsWell, readied-IsWell}
use sysvkit.Procwatch.Inserts.{with_new, with_child, with_child-IsChild}
use sysvkit.Procwatch.Descendants.{OnlyWithout, process_drop-OnlyWithout}
use sysvkit.Procwatch.Exits.{
  IsReadied, process_exit-IsReadied, IsCollected, collect_process-IsCollected,
}
use sysvkit.Procwatch.Ingest.{procwatch_ingest-IsWell}
use sysvkit.Procwatch.Sessions.{monitor_callback, stays, procwatch_ingest-new_session}
use sysvkit.Procwatch.Drain.{with_self, with_self-IsWell, process_collect-echild}

abbrev no_memory : Procs
no_memory = record {
  next = 1;
  live = λ a. false;
  at = λ a. new_process 0 0 0;
  processes = [];
  ready = [];
  proc_init = 0;
  proc_self = 0;
  errno = 0;
}

-- init at 1 and the monitor, process 100, at 2; its child 200 at 3, and its child 300 at 4.
abbrev two : Procs
two = with_self no_memory (λ a. refl) 100 90

two-IsWell : IsWell two
two-IsWell = with_self-IsWell no_memory (λ a. refl) 100 90 (λ e. omega arith)

monitor_found : get 100 two.processes ≡ some 2
unfolding get put with_self
monitor_found = refl

service_absent : get 200 two.processes ≡ none
unfolding get put with_self
service_absent = refl

abbrev three : Procs
three = with_child two-IsWell 2 200 100 monitor_found service_absent

three-IsWell : IsWell three
three-IsWell = (with_child-IsChild two-IsWell 2 200 100 monitor_found service_absent).well

service_found : get 200 three.processes ≡ some 3
unfolding get put with_self with_child with_new
service_found = refl

worker_absent : get 300 three.processes ≡ none
unfolding get put with_self with_child with_new
worker_absent = refl

abbrev four : Procs
four = with_child three-IsWell 3 300 200 service_found worker_absent

four-IsWell : IsWell four
four-IsWell = (with_child-IsChild three-IsWell 3 300 200 service_found worker_absent).well

service_found_later : get 200 four.processes ≡ some 3
unfolding get put with_self with_child with_new
service_found_later = refl

worker_found : get 300 four.processes ≡ some 4
unfolding get put with_self with_child with_new
worker_found = refl

not_first : (a : ℕ) → 1 < a → a ≢ four.proc_init
unfolding with_self with_child with_new
not_first a lt e = omega arith

process_drop-OnlyWithout_example :
    Ends (λ r s'. (r ≡ true) × IsWell s' × OnlyWithout 3 four s') (process_drop 200 four)
process_drop-OnlyWithout_example =
    process_drop-OnlyWithout four 200 3 four-IsWell service_found_later (not_first 3 (omega arith))

none_ready : has 4 four.ready ≡ false
unfolding has with_self with_child with_new
none_ready = refl

process_exit-IsReadied_example :
    Ends (λ r s'. (r ≡ true) × IsReadied 4 256 four s') (process_exit 300 256 four)
process_exit-IsReadied_example =
    process_exit-IsReadied four 300 4 256 four-IsWell worker_found (not_first 4 (omega arith))
      none_ready

procwatch_ingest-IsWell_example :
    Ends
      (λ r s'. (r ≡ true) × IsWell s')
      (procwatch_ingest none (some (Event.exit 300 256 sigchld)) four)
unfolding has get put with_self with_child with_new
procwatch_ingest-IsWell_example =
    procwatch_ingest-IsWell none four (Event.exit 300 256 sigchld) four-IsWell
      (λ a h e. absurd (ground arith), λ a h. refl)

procwatch_ingest-new_session_example :
    Ends
      (λ r s'. get 300 s'.processes ≡ (if stays true 90 90 then some 4 else none))
      (procwatch_ingest (monitor_callback true 90 90) (some (Event.new_session 300)) four)
procwatch_ingest-new_session_example =
    procwatch_ingest-new_session four true 90 90 300 4 four-IsWell worker_found
      (not_first 4 (omega arith))

-- The worker is ready.
abbrev five : Procs
five = record four { ready = four.ready ++ (4 ∷ []) }

worker_live : four.live 4 ≡ true
unfolding with_self with_child with_new
worker_live = refl

five-IsWell : IsWell five
five-IsWell = readied-IsWell four-IsWell 4 worker_live (not_first 4 (omega arith)) none_ready

more_than_two : (length five.processes == 2) ≡ false
unfolding put with_self with_child with_new
more_than_two = refl

only_ready : five.ready ≡ 4 ∷ []
unfolding with_self with_child with_new
only_ready = refl

collect_process-IsCollected_example :
    Ends
      (λ r s'.
        (p : Process) × (r ≡ some p)
        × (p.pid ≡ (five.at 4).pid)
        × (p.wstatus ≡ (five.at 4).wstatus)
        × IsCollected 4 [] five s')
      (collect_process five)
collect_process-IsCollected_example =
    collect_process-IsCollected five 4 [] five-IsWell more_than_two only_ready

init_found : get 1 two.processes ≡ some 1
unfolding get put with_self
init_found = refl

nothing_left : process_collect two ≡ done none (record two { errno = echild })
unfolding process_collect put with_self
nothing_left = refl

process_collect-echild_example : (◌≡◌ {A = ℕ} 100 1) ⊎ (◌≡◌ {A = ℕ} 100 100)
process_collect-echild_example =
    process_collect-echild two 100 1 2 two-IsWell init_found monitor_found (λ e. omega arith)
      (record two { errno = echild }) nothing_left refl 100 2 monitor_found

-- What a run answers, without the memory.
abbrev answer : {A : Type 0} → Run A → Option A
answer (done a s) = some a
answer (failed f) = none

-- process_remove leaves a freed struct among its parent's children, which the drop of the parent
-- then follows.
drop_behind_remove : (process_remove 300 >> process_drop 200) four ≡ failed dangling
unfolding process_remove process_drop with_self with_child with_new put get
drop_behind_remove = refl

-- Where the monitor's own id is 1, the two roots are one element, and a single child is not seen.
collect_as_init :
    answer ((processes_init 1 1 >> process_insert 50 1 0 >> process_collect) no_memory) ≡ some none
unfolding processes_init process_insert process_collect
collect_as_init = refl

-- A process that ends twice before it is collected is freed twice.
collect_twice :
    (process_exit 300 0 >> process_exit 300 0 >> collect_process >> collect_process) four
    ≡ failed dangling
unfolding process_exit collect_process with_self with_child with_new put get
collect_twice = refl

-- A service that is dropped takes its worker along.
dropped_with_worker : answer ((process_drop 200 >> λ s. done (process_count s) s) four) ≡ some 0
unfolding process_drop process_count with_self with_child with_new put get
dropped_with_worker = refl
