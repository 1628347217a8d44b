-- ===== src/Timer/Tests.antt =====
-- Timers and sleeps of src/mea_timer.c at concrete times.
use mea_edomus_lite.Common.{ℕ, ◌≡◌, refl, true, false, List, [], ◌∷◌, arith}
use mea_edomus_lite.Timer.{init_timer, start_timer, nanosleep_request, microsleep_request}
use mea_edomus_lite.Timer.Polls.{polls, firings, Spaced, polls-start_timer, firings-start_timer}

-- A second and a half, in nanoseconds, and half a second, in microseconds.
abbrev long : ℕ
long = 1500000000

abbrev half : ℕ
half = 500000

abbrev calls : List (ℕ × ℕ)
calls = (105, 105) ∷ (110, 110) ∷ (111, 112) ∷ (122, 122) ∷ (123, 123) ∷ []

polls-start_timer_example :
    polls calls (start_timer 100 (init_timer 10 0)) ≡ false ∷ false ∷ true ∷ false ∷ false ∷ []
polls-start_timer_example = polls-start_timer 100 10 0 calls (ground arith)

firings-start_timer_example : Spaced 10 100 (firings calls (start_timer 100 (init_timer 10 1)))
firings-start_timer_example = firings-start_timer 100 10 calls

restarting : firings calls (start_timer 100 (init_timer 10 1)) ≡ (111, 112) ∷ (123, 123) ∷ []
unfolding init_timer start_timer mea_edomus_lite.Timer.test_timer
restarting = refl
