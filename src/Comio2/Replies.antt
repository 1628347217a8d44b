-- ===== src/Comio2/Replies.antt =====
-- src/interfaces/type_001/comio2.c: comio2_cmdSend, comio2_cmdSendAndWaitResp, comio2_call_fn and
-- comio2_call_proc.
use mea_edomus_lite.Common.{
  ℕ, zero, suc, ◌+◌, ◌-◌, ◌*◌, ◌%◌, Bool, true, false, Option, none, some, List, [], ◌∷◌, ◌++◌,
  ◌==◌, ◌||◌, leb, length, if◌then◌else◌,
}
use mea_edomus_lite.Comio2.{Elem, Ad, max_data_size, get_frame_data_id, build_frame, age}

abbrev pub err_sys : ℕ
err_sys = 9

abbrev pub err_in_callback : ℕ
err_in_callback = 10

abbrev pub err_ldata : ℕ
err_ldata = 12

abbrev pub err_down : ℕ
err_down = 13

-- What a search of the queue ends in: the bytes of a response behind its number, a response that is
-- an error, none, or a response without a number, whose first byte was never written.
pub data Scanned : Type 0 where
  found : List ℕ → List Elem → Scanned
  found_error : ℕ → List Elem → Scanned
  not_found : Scanned
  uninitialised : Scanned

-- An element that stays in the queue.
unfoldable pub behind_elem : Elem → Scanned → Scanned
behind_elem e (found resp queue) = found resp (e ∷ queue)
behind_elem e (found_error err queue) = found_error err (e ∷ queue)
behind_elem e not_found = not_found
behind_elem e uninitialised = uninitialised

unfoldable pub for_me : ℕ → Elem → List ℕ → List Elem → Scanned → Scanned
unfolding behind_elem age
for_me now e bytes queue rest =
    if e.comio2_err == 0
    then if leb (age now e) 10 then found bytes queue else behind_elem e rest
    else found_error e.comio2_err queue

unfoldable pub of_number : ℕ → ℕ → Elem → List Elem → Scanned → List ℕ → Scanned
unfolding for_me
of_number id now e queue rest [] = uninitialised
of_number id now e queue rest (c ∷ bytes) =
    if c == id then for_me now e bytes queue rest else behind_elem e rest

-- The loop over the queue.
unfoldable pub scan : ℕ → ℕ → List Elem → Scanned
unfolding of_number
scan id now [] = not_found
scan id now (e ∷ queue) = of_number id now e queue (scan id now queue) e.frame

-- What pthread_cond_timedwait ends with: responses that have come, none where it is the time that is
-- over, or another error.
pub data Wait : Type 0 where
  arrived : List Elem → Wait
  wait_failed : Wait

-- What comio2_cmdSendAndWaitResp returns: 0 with the response, or -1 with an error or with none.
pub data Reply : Type 0 where
  reply : List ℕ → Reply
  refused : ℕ → Reply
  no_reply : Reply
  undefined_reply : Reply

-- Behind the search. `k` is the next round.
unfoldable pub on_scanned : (Ad → Reply × Ad) → Ad → Scanned → Reply × Ad
on_scanned k ad (found resp queue) = (reply resp, record ad { queue = queue })
on_scanned k ad (found_error err queue) = (refused err, record ad { queue = queue })
on_scanned k ad not_found = k ad
on_scanned k ad uninitialised = (undefined_reply, ad)

-- Behind the wait. An empty queue is not searched, and does not count as one without a response.
unfoldable pub searched : (Bool → Ad → Reply × Ad) → ℕ → ℕ → Bool → Ad → List Elem → Reply × Ad
unfolding on_scanned scan
searched k id now notfound ad [] = k notfound ad
searched k id now notfound ad (e ∷ queue) = on_scanned (k true) ad (scan id now (e ∷ queue))

unfoldable pub is_empty : List Elem → Bool
is_empty [] = true
is_empty (e ∷ queue) = false

unfoldable pub on_wait : (Bool → Ad → Reply × Ad) → ℕ → ℕ → Bool → Ad → Wait → Reply × Ad
unfolding searched
on_wait k id now notfound ad (arrived elems) =
    let ad2 = record ad { queue = ad.queue ++ elems } in searched k id now notfound ad2 ad2.queue
on_wait k id now notfound ad wait_failed = (refused err_sys, ad)

-- The loop, with the rounds that are left; `waits` and `clock` are those of each round.
unfoldable pub rounds : (ℕ → Wait) → (ℕ → ℕ) → ℕ → ℕ → Bool → Ad → Reply × Ad
unfolding on_wait is_empty
rounds waits clock id zero notfound ad = (no_reply, ad)
rounds waits clock id (suc n) notfound ad =
    let next = rounds waits clock id n in
    if is_empty ad.queue || notfound
    then on_wait next id (clock n) notfound ad (waits n)
    else searched next id (clock n) notfound ad ad.queue

-- COMIO2_NB_RETRY
abbrev pub nb_retry : ℕ
nb_retry = 5

-- A line: whether it takes a frame, and what the waits and the clock say.
pub record Line : Type 0 where
  pub write_ok : Bool
  pub in_callback : Bool
  pub waits : ℕ → Wait
  pub clock : ℕ → ℕ

-- The guards that both ways to send a command have; none lets it pass.
unfoldable pub guarded : Line → ℕ → Ad → Option ℕ
guarded line l_data ad =
    if ad.signal_flag
    then some err_down
    else if leb max_data_size l_data
    then some err_ldata
    else if line.in_callback
    then some err_in_callback
    else none

unfoldable pub on_written : Line → ℕ → Ad → Reply × Ad
unfolding rounds
on_written line id ad =
    if line.write_ok
    then rounds line.waits line.clock id nb_retry false ad
    else (refused err_sys, ad)

unfoldable pub passed : Option ℕ → (Ad → Reply × Ad) → Ad → Reply × Ad
passed none k ad = k ad
passed (some err) k ad = (refused err, ad)

-- comio2_cmdSendAndWaitResp
unfoldable pub cmd_send_and_wait_resp : Line → ℕ → List ℕ → Ad → Reply × Ad
unfolding guarded passed on_written get_frame_data_id
cmd_send_and_wait_resp line cmd bytes ad =
    passed (guarded line (length bytes) ad)
      (λ a. let taken = get_frame_data_id a in on_written line taken.0 taken.1) ad

-- comio2_cmdSend: the frame that is written, with the number 0, or an error.
pub data CommandSent : Type 0 where
  command_sent : List ℕ → CommandSent
  command_refused : ℕ → CommandSent

unfoldable pub send_unless : Line → List ℕ → Option ℕ → CommandSent
send_unless line frame none = if line.write_ok then command_sent frame else command_refused err_sys
send_unless line frame (some err) = command_refused err

unfoldable pub cmd_send : Line → ℕ → List ℕ → Ad → CommandSent
unfolding guarded send_unless build_frame
cmd_send line cmd bytes ad =
    send_unless line (build_frame 0 (cmd ∷ bytes)) (guarded line (length bytes) ad)

-- COMIO2_CMD_CALLFUNCTION
abbrev pub cmd_callfunction : ℕ
cmd_callfunction = 3

-- What comio2_call_fn returns: 0 with the function's value, its bytes and *l_resp, 1 with the number
-- of an error, or -1. `short_reply` is a read of bytes that the response does not have.
pub data FnResult : Type 0 where
  fn_value : ℕ → List ℕ → ℕ → FnResult
  fn_error : ℕ → FnResult
  fn_failed : Reply → FnResult
  short_reply : FnResult

unfoldable pub fn_reply : List ℕ → FnResult
fn_reply (c ∷ low ∷ high ∷ bytes) =
    if c == cmd_callfunction
    then fn_value (low + high * 256) bytes (length (c ∷ low ∷ high ∷ bytes) - 2)
    else fn_error low
fn_reply (c ∷ low ∷ []) = if c == cmd_callfunction then short_reply else fn_error low
fn_reply (c ∷ []) = short_reply
fn_reply [] = short_reply

unfoldable pub on_reply : Reply × Ad → FnResult × Ad
unfolding fn_reply
on_reply (reply resp, ad) = (fn_reply resp, ad)
on_reply (refused err, ad) = (fn_failed (refused err), ad)
on_reply (no_reply, ad) = (fn_failed no_reply, ad)
on_reply (undefined_reply, ad) = (fn_failed undefined_reply, ad)

-- comio2_call_fn
unfoldable pub call_fn : Line → ℕ → List ℕ → Ad → FnResult × Ad
unfolding on_reply cmd_send_and_wait_resp
call_fn line fn bytes ad =
    if ad.signal_flag
    then (fn_failed (refused err_down), ad)
    else if leb (max_data_size - 6) (length bytes + 1)
    then (fn_failed (refused err_ldata), ad)
    else on_reply (cmd_send_and_wait_resp line cmd_callfunction (fn % 256 ∷ bytes) ad)

-- comio2_call_proc
unfoldable pub call_proc : Line → ℕ → List ℕ → Ad → CommandSent
unfolding cmd_send
call_proc line fn bytes ad =
    if ad.signal_flag
    then command_refused err_down
    else if leb max_data_size (length bytes + 1)
    then command_refused err_ldata
    else cmd_send line cmd_callfunction (fn % 256 ∷ bytes) ad
