-- ===== src/Timer/Polls.antt =====
-- What a timer of src/mea_timer.c says when it is polled again and again.
use mea_edomus_lite.Common.{
  ℕ, ◌+◌, ◌<◌, ◌≡◌, ◌≢◌, refl, ap, Bool, true, false, List, [], ◌∷◌, ◌==◌, ltb, if◌then◌else◌,
  arith, Bool-cases, inl, inr,
}
use mea_edomus_lite.Timer.{Timer, init_timer, start_timer, stop_timer, test_timer}

-- The answers of mea_test_timer to a sequence of calls, each with its two readings of the clock.
abbrev pub polls : List (ℕ × ℕ) → Timer → List Bool
polls [] t = []
polls ((now, later) ∷ calls) t = let r = test_timer now later t in r.0 ∷ polls calls r.1

-- The calls that it answers with 0.
abbrev pub select : Bool → ℕ × ℕ → List (ℕ × ℕ) → List (ℕ × ℕ)
select true call fired = call ∷ fired
select false call fired = fired

abbrev pub firings : List (ℕ × ℕ) → Timer → List (ℕ × ℕ)
firings [] t = []
firings ((now, later) ∷ calls) t =
    let r = test_timer now later t in select r.0 (now, later) (firings calls r.1)

-- Never.
abbrev pub silence : List (ℕ × ℕ) → List Bool
silence [] = []
silence (_ ∷ calls) = false ∷ silence calls

-- Just at the first call after the deadline.
abbrev pub once : ℕ → List (ℕ × ℕ) → List Bool
once deadline [] = []
once deadline ((now, _) ∷ calls) =
    if ltb deadline now then true ∷ silence calls else false ∷ once deadline calls

-- Each firing comes more than `d` seconds behind `from`, and behind the restart of the one before.
abbrev pub Spaced : ℕ → ℕ → List (ℕ × ℕ) → Type 0
Spaced d from [] = Unit
Spaced d from ((now, later) ∷ fired) = (from + d < now) × Spaced d later fired

pub test_timer-inactive :
    (now later : ℕ) (t : Timer) → (t.stat == 1) ≡ false → test_timer now later t ≡ (false, t)
unfolding test_timer
test_timer-inactive now later t off = rw (off) refl

pub polls-silence :
    (calls : List (ℕ × ℕ)) (t : Timer) → (t.stat == 1) ≡ false → polls calls t ≡ silence calls
polls-silence [] t off = refl
polls-silence ((now, later) ∷ calls) t off =
    rw (test_timer-inactive now later t off) (ap (λ bs. false ∷ bs) (polls-silence calls t off))

pub test_timer-early :
    (now later : ℕ) (t : Timer)
    → ltb (t.start_time + t.delay) now ≡ false
    → test_timer now later t ≡ (false, t)
unfolding test_timer
test_timer-early now later t early = elim (Bool-cases (t.stat == 1)) [
  | inl e ↦ rw (e) (rw (early) refl)
  | inr e ↦ rw (e) refl
]

pub test_timer-fires :
    (now later : ℕ) (t : Timer)
    → (t.stat == 1) ≡ true
    → ltb (t.start_time + t.delay) now ≡ true
    → test_timer now later t
      ≡ (true, if t.autorestart == 1 then record t { start_time = later } else stop_timer t)
unfolding test_timer
test_timer-fires now later t on late = rw (on) (rw (late) refl)

pub stop_timer-off : (t : Timer) → ((stop_timer t).stat == 1) ≡ false
unfolding stop_timer
stop_timer-off t = refl

pub polls-once :
    (calls : List (ℕ × ℕ)) (t : Timer)
    → (t.stat == 1) ≡ true
    → (t.autorestart == 1) ≡ false
    → polls calls t ≡ once (t.start_time + t.delay) calls
polls-once [] t on single = refl
polls-once ((now, later) ∷ calls) t on single =
    elim (Bool-cases (ltb (t.start_time + t.delay) now)) [
      | inl e ↦ rw (test_timer-fires now later t on e) (
          rw (e) (
            rw (single)
              (ap (λ bs. true ∷ bs) (polls-silence calls (stop_timer t) (stop_timer-off t)))))
      | inr e ↦
          rw (test_timer-early now later t e)
            (rw (e) (ap (λ bs. false ∷ bs) (polls-once calls t on single)))
    ]

pub firings-Spaced :
    (calls : List (ℕ × ℕ)) (t : Timer)
    → (t.stat == 1) ≡ true
    → (t.autorestart == 1) ≡ true
    → Spaced t.delay t.start_time (firings calls t)
firings-Spaced [] t on again = tt
firings-Spaced ((now, later) ∷ calls) t on again =
    elim (Bool-cases (ltb (t.start_time + t.delay) now)) [
      | inl e ↦ rw (test_timer-fires now later t on e) (
          rw (again)
            (ground (arith, e), firings-Spaced calls (record t { start_time = later }) on again))
      | inr e ↦ rw (test_timer-early now later t e) (firings-Spaced calls t on again)
    ]

-- A timer that does not restart, once started, answers 0 just once: at the first call that comes more
-- than its delay after the start.
pub polls-start_timer :
    (time delay' restart : ℕ) (calls : List (ℕ × ℕ))
    → restart ≢ 1
    → polls calls (start_timer time (init_timer delay' restart)) ≡ once (time + delay') calls
unfolding init_timer start_timer
polls-start_timer time delay' restart calls single =
    polls-once calls (start_timer time (init_timer delay' restart)) refl (ground (arith, single))

-- The calls to which a restarting timer answers 0 come more than its delay after the start and after
-- the restart by the call before them that it answered so.
pub firings-start_timer :
    (time delay' : ℕ) (calls : List (ℕ × ℕ))
    → Spaced delay' time (firings calls (start_timer time (init_timer delay' 1)))
unfolding init_timer start_timer
firings-start_timer time delay' calls =
    firings-Spaced calls (start_timer time (init_timer delay' 1)) refl refl
