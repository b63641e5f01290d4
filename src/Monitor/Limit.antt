-- ===== src/Monitor/Limit.antt =====
-- The start limit of monitor_func in src/sysvrun/monitor.c: a ring of the last start times.
pub mod Ring
pub mod Window
use sysvkit.Base.{
  ℕ, zero, suc, ◌+◌, ◌-◌, ◌%◌, ◌^◌, Bool, true, false, ◌&&◌, Option, none, some, List, [], ◌∷◌,
  replicate, set, get_or, ltb, if◌then◌else◌,
}

-- start_times (where it is not NULL), start_time_cursor, and the two limits of the monitor.
pub record Limiter : Type 0 where
  pub start_times : List ℕ
  pub start_time_cursor : ℕ
  pub start_limit_burst : ℕ
  pub start_limit_interval : ℕ

abbrev pub max_start_limit_burst : ℕ
max_start_limit_burst = 100

abbrev pub capped : ℕ → ℕ
capped burst = if ltb max_start_limit_burst burst then max_start_limit_burst else burst

-- The set-up before the main loop; `now` is the time of the first start. There is no limit (NULL)
-- where the interval is 0 or the burst at most 1.
unfoldable pub limit_init : ℕ → ℕ → ℕ → Option Limiter
limit_init interval burst now =
    if ltb 0 interval && ltb 1 burst
    then some (record {
      start_times = set (replicate (capped burst) 0) 0 now;
      start_time_cursor = 1 % capped burst;
      start_limit_burst = capped burst;
      start_limit_interval = interval;
    })
    else none

-- The time since the start under the cursor, in 64-bit arithmetic.
unfoldable pub start_time_delta : Limiter → ℕ → ℕ
start_time_delta l next = (next + 2 ^ 64 - get_or l.start_times l.start_time_cursor 0) % 2 ^ 64

-- A restart at `next`: none where the start limit is exceeded.
unfoldable pub limit_restart : Limiter → ℕ → Option Limiter
limit_restart l next =
    if ltb (start_time_delta l next) l.start_limit_interval
    then none
    else some (record l {
      start_times = set l.start_times l.start_time_cursor next;
      start_time_cursor = (l.start_time_cursor + 1) % l.start_limit_burst;
    })

-- Restarts one after another.
unfoldable pub limit_run : Limiter → List ℕ → Option Limiter
limit_run l [] = some l
limit_run l (t ∷ ts) = elim (limit_restart l t) [ none ↦ none | some l' ↦ limit_run l' ts ]
