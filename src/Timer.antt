-- ===== src/Timer.antt =====
-- src/mea_timer.c: timers that are polled, and the requests that the sleeping functions make of
-- nanosleep. Each call of time() is an argument: the seconds that it returns.
pub mod Polls
pub mod Sleeps
mod Tests
use mea_edomus_lite.Common.{
  ℕ, ◌+◌, ◌-◌, ◌*◌, ◌%◌, Bool, true, false, List, [], ◌∷◌, ◌==◌, ltb, if◌then◌else◌,
}

-- mea_timer_t
pub record Timer : Type 0 where
  pub stat : ℕ
  pub start_time : ℕ
  pub delay : ℕ
  pub autorestart : ℕ

-- mea_init_timer, of a timer that is not NULL
unfoldable pub init_timer : ℕ → ℕ → Timer
init_timer delay' restart_status = record {
  stat = 0;
  start_time = 0;
  delay = delay';
  autorestart = restart_status;
}

-- mea_start_timer
unfoldable pub start_timer : ℕ → Timer → Timer
start_timer time t = record t { start_time = time; stat = 1 }

-- mea_stop_timer
unfoldable pub stop_timer : Timer → Timer
stop_timer t = record t { start_time = 0; stat = 0 }

-- mea_test_timer: true for its result 0, and the timer it leaves. `now` and `later` are its two
-- readings of the clock; the difference of `now` and the start is exact in a double.
unfoldable pub test_timer : ℕ → ℕ → Timer → Bool × Timer
unfolding stop_timer
test_timer now later t =
    if t.stat == 1
    then (if ltb (t.start_time + t.delay) now
        then (true, if t.autorestart == 1 then record t { start_time = later } else stop_timer t)
        else (false, t))
    else (false, t)

-- The seconds and nanoseconds of a struct timespec.
pub record Timespec : Type 0 where
  pub tv_sec : ℕ
  pub tv_nsec : ℕ

-- `if(tv_nsec > 1000000000L) ...`, of mea_nanosleep and mea_microsleep.
unfoldable pub carry : ℕ → Timespec
carry ns =
    if ltb 1000000000 ns
    then record { tv_sec = 1; tv_nsec = ns - 1000000000 }
    else record { tv_sec = 0; tv_nsec = ns }

-- The request of mea_nanosleep.
unfoldable pub nanosleep_request : ℕ → Timespec
nanosleep_request ns = carry ns

-- The request of mea_microsleep: the product is one of uint32_t.
unfoldable pub microsleep_request : ℕ → Timespec
microsleep_request usecs = carry ((usecs * 1000) % 4294967296)
