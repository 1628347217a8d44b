-- ===== src/Timer/Sleeps.antt =====
-- The requests that mea_nanosleep and mea_microsleep of src/mea_timer.c make.
use mea_edomus_lite.Common.{ℕ, ◌+◌, ◌*◌, ◌<◌, ◌≡◌, ◌≢◌, ◌↔◌, arith}
use mea_edomus_lite.Timer.{Timespec, carry, nanosleep_request, microsleep_request}

-- nanosleep takes a request of fewer than 10^9 nanoseconds besides the seconds.
abbrev pub Valid : Timespec → Type 0
Valid r = r.tv_nsec < 1000000000

abbrev pub nanoseconds : Timespec → ℕ
nanoseconds r = r.tv_sec * 1000000000 + r.tv_nsec

-- The request of mea_nanosleep amounts to the time asked for, and nanosleep takes it exactly when that
-- is below two seconds and not one second.
pub nanosleep_request-Valid :
    (ns : ℕ)
    → (nanoseconds (nanosleep_request ns) ≡ ns)
      × (Valid (nanosleep_request ns) ↔ ((ns ≢ 1000000000) × (ns < 2000000000)))
unfolding nanosleep_request carry
nanosleep_request-Valid ns = (ground arith, ground arith)

-- Below 4294967 microseconds, the request of mea_microsleep amounts to the time asked for, and
-- nanosleep takes it exactly when that is below two seconds and not one second.
pub microsleep_request-Valid :
    (usecs : ℕ)
    → usecs < 4294967
    → (nanoseconds (microsleep_request usecs) ≡ usecs * 1000)
      × (Valid (microsleep_request usecs) ↔ ((usecs ≢ 1000000) × (usecs < 2000000)))
unfolding microsleep_request carry
microsleep_request-Valid usecs small = (ground (arith, small), ground (arith, small))
