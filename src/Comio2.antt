-- ===== src/Comio2.antt =====
-- src/interfaces/type_001/comio2.c: the frames to and from an Arduino, their numbers and the traps.
pub mod Read
pub mod Replies
pub mod Frames
pub mod Ids
pub mod Overruns
pub mod Waits
mod Tests
use mea_edomus_lite.Common.{
  ℕ, zero, suc, ◌+◌, ◌-◌, ◌*◌, ◌%◌, Bool, true, false, Option, none, some, List, [], ◌∷◌, ◌++◌,
  ◌==◌, ◌&&◌, leb, ltb, length, get_elem?, drop, take, if◌then◌else◌,
}

-- comio2_queue_elem_t; `frame` has l_frame bytes.
pub record Elem : Type 0 where
  pub frame : List ℕ
  pub tsp : ℕ
  pub comio2_err : ℕ

-- comio2_ad_t; a trap is the number of its function, with its userdata.
pub record Ad : Type 0 where
  pub queue : List Elem
  pub frame_id : ℕ
  pub signal_flag : Bool
  pub tab_traps : List (Option ℕ)

-- COMIO2_MAX_USER_FRAME_ID
abbrev pub max_user_frame_id : ℕ
max_user_frame_id = 200

abbrev pub max_data_size : ℕ
max_data_size = 80

abbrev pub max_frame_size : ℕ
max_frame_size = 120

abbrev pub max_trap : ℕ
max_trap = 255

abbrev pub trap_id : ℕ
trap_id = 254

unfoldable pub next_id : ℕ → ℕ
next_id id = if ltb max_user_frame_id (id + 1) then 1 else id + 1

-- _comio2_get_frame_data_id
unfoldable pub get_frame_data_id : Ad → ℕ × Ad
unfolding next_id
get_frame_data_id ad = (ad.frame_id, record ad { frame_id = next_id ad.frame_id })

-- The sum of bytes. As a char each may be 256 less, which a checksum does not tell.
unfoldable pub byte_sum : List ℕ → ℕ
byte_sum [] = 0
byte_sum (c ∷ s) = c + byte_sum s

-- _comio2_build_frame
unfoldable pub build_frame : ℕ → List ℕ → List ℕ
unfolding byte_sum
build_frame id cmd_data =
    0x5B
    ∷ (5 + length cmd_data) % 256
    ∷ id
    ∷ (cmd_data
        ++ (0xFF - (5 + length cmd_data + id + byte_sum cmd_data) % 65536 % 256) ∷ 0x5D ∷ [])

-- tabTraps[n] = trap
unfoldable pub put_trap : ℕ → Option ℕ → List (Option ℕ) → List (Option ℕ)
put_trap n trap [] = []
put_trap zero trap (t ∷ traps) = trap ∷ traps
put_trap (suc n) trap (t ∷ traps) = t ∷ put_trap n trap traps

-- comio2_setTrap of a positive number or 0; none is -1.
unfoldable pub set_trap : ℕ → ℕ → Ad → Option Ad
unfolding put_trap
set_trap num_trap trap ad =
    if ltb 0 num_trap && leb num_trap max_trap
    then some (record ad { tab_traps = put_trap (num_trap - 1) (some trap) ad.tab_traps })
    else none

-- comio2_removeTrap
unfoldable pub remove_trap : ℕ → Ad → Option Ad
unfolding put_trap
remove_trap num_trap ad =
    if ltb 0 num_trap && leb num_trap max_trap
    then some (record ad { tab_traps = put_trap (num_trap - 1) none ad.tab_traps })
    else none

unfoldable pub removed : ℕ → List (Option ℕ)
removed zero = []
removed (suc n) = none ∷ removed n

-- comio2_removeAllTraps
unfoldable pub remove_all_traps : Ad → Ad
unfolding removed
remove_all_traps ad = record ad { tab_traps = removed max_trap }

-- `tsp - e->tsp` on a uint32_t
unfoldable pub age : ℕ → Elem → ℕ
age now e = (now + (4294967296 - e.tsp)) % 4294967296

-- _comio2_flush_old_responses_queue
unfoldable pub flush_old : ℕ → List Elem → List Elem
unfolding age
flush_old now [] = []
flush_old now (e ∷ queue) =
    let rest = flush_old now queue in if ltb 10 (age now e) then rest else e ∷ rest

-- What the thread does with a frame: it calls a trap, or it stores a response. `memory_fault` is a
-- write behind an element, a read in front of the traps or of a byte that was not received.
pub data Handled : Type 0 where
  nothing : Ad → Handled
  trapped : ℕ → ℕ → List ℕ → Handled
  queued : Ad → Handled
  memory_fault : Handled

-- _comio2_add_response_to_queue
unfoldable pub add_response_to_queue : ℕ → List ℕ → Ad → Handled
add_response_to_queue now frame ad =
    if leb (length frame) max_frame_size
    then queued
        (record ad { queue = ad.queue ++ record { frame = frame; tsp = now; comio2_err = 0 } ∷ [] })
    else memory_fault

unfoldable pub call_trap : Ad → ℕ → List ℕ → Option (Option ℕ) → Handled
call_trap ad n bytes none = memory_fault
call_trap ad n bytes (some none) = nothing ad
call_trap ad n bytes (some (some trap)) = trapped trap n bytes

-- The number of a trap is one more than its place; that in front of the first is memory_fault.
unfoldable pub on_trap : Ad → List ℕ → Option ℕ → Handled
unfolding call_trap
on_trap ad frame none = memory_fault
on_trap ad frame (some zero) = memory_fault
on_trap ad frame (some (suc n)) =
    if ltb n max_trap then call_trap ad n (drop 2 frame) (get_elem? ad.tab_traps n) else nothing ad

-- _comio2_thread, of one frame of at least a byte
unfoldable pub on_frame : ℕ → List ℕ → Ad → Handled
unfolding on_trap add_response_to_queue
on_frame now [] ad = memory_fault
on_frame now (id ∷ bytes) ad =
    if ltb max_user_frame_id id
    then if id == trap_id then on_trap ad (id ∷ bytes) (get_elem? bytes 0) else nothing ad
    else add_response_to_queue now (id ∷ bytes) ad
