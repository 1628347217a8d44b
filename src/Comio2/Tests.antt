-- ===== src/Comio2/Tests.antt =====
-- src/interfaces/type_001/comio2.c: the theorems at frames and replies, and the traps.
use mea_edomus_lite.Common.{
  ℕ, zero, suc, ◌≤◌, ◌≡◌, ◌≢◌, refl, true, false, none, some, List, [], ◌∷◌, ◌++◌, arith, inr, ◌⊎◌,
}
use mea_edomus_lite.Comio2.{Elem, Ad, trapped, memory_fault, on_frame, next_id, age}
use mea_edomus_lite.Comio2.Read.{frame_read, frame_overrun, read_frame}
use mea_edomus_lite.Comio2.Frames.{answer_frame, read_frame-answer}
use mea_edomus_lite.Comio2.Ids.{nth_id, get_frame_data_id-fresh}
use mea_edomus_lite.Comio2.Overruns.{read_frame-overrun}
use mea_edomus_lite.Comio2.Replies.{arrived, reply, Line, cmd_send_and_wait_resp, call_fn, fn_value}
use mea_edomus_lite.Comio2.Waits.{cmd_send_and_wait_resp-first}

read_frame-answer_example :
    read_frame (answer_frame (7 ∷ 3 ∷ 1 ∷ []) ++ 0x7B ∷ [])
    ≡ frame_read (7 ∷ 3 ∷ 1 ∷ []) (0x7B ∷ [])
read_frame-answer_example = read_frame-answer 7 (3 ∷ 1 ∷ []) (0x7B ∷ []) (omega arith)

abbrev zeros : ℕ → List ℕ
zeros zero = []
zeros (suc n) = let s = zeros n in 0 ∷ s

read_frame-overrun_example : read_frame (0x7B ∷ 0x80 ∷ zeros 256) ≡ frame_overrun
read_frame-overrun_example =
    read_frame-overrun 0x80 (zeros 256) (omega arith) (inr (omega arith)) (omega arith)

abbrev stored : ℕ → List ℕ → Elem
stored t bytes = record { frame = bytes; tsp = t; comio2_err = 0 }

abbrev ad : Ad
ad = record {
  queue = [];
  frame_id = 200;
  signal_flag = false;
  tab_traps = none ∷ some 5 ∷ none ∷ [];
}

get_frame_data_id-fresh_example :
    ((1 ≤ nth_id 0 ad) × (nth_id 0 ad ≤ 200)) × (nth_id 0 ad ≢ nth_id 1 ad)
get_frame_data_id-fresh_example =
    get_frame_data_id-fresh ad 0 1 (omega arith) (omega arith) (omega arith) (omega arith)

-- A late answer to another command comes first.
abbrev line : Line
line = record {
  write_ok = true;
  in_callback = false;
  waits = λ n. arrived (stored 99 (199 ∷ 3 ∷ []) ∷ stored 100 (200 ∷ 3 ∷ 44 ∷ 1 ∷ 8 ∷ []) ∷ []);
  clock = λ n. 101;
}

abbrev Numbered : Elem → Type 0
Numbered e = (e.frame ≡ 199 ∷ 3 ∷ []) ⊎ (e.frame ≡ 200 ∷ 3 ∷ 44 ∷ 1 ∷ 8 ∷ [])

recent : age 101 (stored 100 (200 ∷ 3 ∷ 44 ∷ 1 ∷ 8 ∷ [])) ≤ 10
unfolding age
recent = omega arith

cmd_send_and_wait_resp-first_example : cmd_send_and_wait_resp line 3 (9 ∷ []) ad ≡ (
  reply (3 ∷ 44 ∷ 1 ∷ 8 ∷ []),
  record ad { frame_id = next_id 200; queue = (stored 99 (199 ∷ 3 ∷ []) ∷ []) ++ [] },
)
cmd_send_and_wait_resp-first_example =
    cmd_send_and_wait_resp-first line 3 (9 ∷ []) ad (stored 99 (199 ∷ 3 ∷ []) ∷ []) []
      (stored 100 (200 ∷ 3 ∷ 44 ∷ 1 ∷ 8 ∷ [])) (3 ∷ 44 ∷ 1 ∷ 8 ∷ []) refl (omega arith) refl refl
      (inr (refl, refl)) ((199, (3 ∷ [], (refl, refl))), tt) refl refl recent

-- *l_resp is 2 for one byte.
one_byte_more : (call_fn line 7 [] ad).0 ≡ fn_value 300 (8 ∷ []) 2
unfolding call_fn age
one_byte_more = refl

trap_called : on_frame 0 (254 ∷ 2 ∷ 6 ∷ []) ad ≡ trapped 5 1 (6 ∷ [])
unfolding on_frame
trap_called = refl

-- tabTraps[-1]
trap_zero : on_frame 0 (254 ∷ 0 ∷ []) ad ≡ memory_fault
unfolding on_frame
trap_zero = refl

too_long : on_frame 0 (1 ∷ zeros 120) ad ≡ memory_fault
unfolding on_frame
too_long = refl
