-- ===== src/Enocean/Exchange.antt =====
-- src/interfaces/type_003/enocean.c: _enocean_thread, which takes the packets that were read, and
-- enocean_send_packet, which waits for the answer to a request.
use mea_edomus_lite.Common.{
  ℕ, ◌+◌, ◌*◌, ◌-◌, Bool, true, false, Option, none, some, List, [], ◌∷◌, ◌++◌, ◌==◌, leb, ltb,
  length, get_elem?, take, if◌then◌else◌,
}
use mea_edomus_lite.Enocean.{or_zero, calc_addr, radio_erp1}

-- struct enocean_in_buffer_s; `packet` are its 256 bytes.
pub record InBuffer : Type 0 where
  pub packet_l : ℕ
  pub packet : List ℕ
  pub timestamp : ℕ
  pub err : ℕ

-- A call of the callback, with an address where one could be read.
pub record Call : Type 0 where
  pub called_with : List ℕ
  pub addr : Option ℕ

-- enocean_ed_t, with the packets written to its line and the calls made.
pub record Ed : Type 0 where
  pub in_buffer : InBuffer
  pub enocean_callback : Bool
  pub calls : List Call
  pub written : List (List ℕ)

abbrev pub enocean_event : ℕ
enocean_event = 4

abbrev pub enocean_response : ℕ
enocean_response = 2

abbrev pub err_timeout : ℕ
err_timeout = 1

abbrev pub err_sys : ℕ
err_sys = 8

-- The byte of a packet at a place.
abbrev pub byte_at : List ℕ → ℕ → ℕ
byte_at p i = or_zero (get_elem? p i)

-- _enocean_diffMillis on an unsigned long of 64 bits.
unfoldable pub diff_millis : ℕ → ℕ → ℕ
diff_millis chrono now =
    if leb chrono now then now - chrono else 18446744073709551615 - chrono + now

infixl 5 ◌>>=◌
◌>>=◌ : {A B : Type 0} → Option A → (A → Option B) → Option B
none >>= f = none
some x >>= f = f x

-- The four bytes, if the packet has them.
unfoldable pub addr_at : List ℕ → ℕ → Option ℕ
unfolding calc_addr ◌>>=◌
addr_at p i = do
  a ← get_elem? p i
  b ← get_elem? p (i + 1)
  c ← get_elem? p (i + 2)
  d ← get_elem? p (i + 3)
  some (calc_addr a b c d)

-- _enocean_get_addr_from_packet of a radio packet; none is a read behind the packet or, since
-- addr_index is an int16_t, in front of it.
unfoldable pub get_addr_from_packet : List ℕ → Option ℕ
unfolding addr_at
get_addr_from_packet p =
    let addr_index = byte_at p 1 * 256 + byte_at p 2 + 1 in
    if byte_at p 4 == radio_erp1
    then if ltb addr_index 32768 then addr_at p addr_index else none
    else some 0

-- A copy that ends with either array.
unfoldable pub copy_into : List ℕ → List ℕ → List ℕ
copy_into [] src = []
copy_into (d ∷ dst) [] = d ∷ dst
copy_into (d ∷ dst) (c ∷ src) = c ∷ copy_into dst src

unfoldable pub call_back : List ℕ → Option ℕ → Ed → Ed
call_back p addr ed =
    if ed.enocean_callback
    then record ed { calls = ed.calls ++ record { called_with = p; addr = addr } ∷ [] }
    else ed

-- The answer to a request; one that comes late is an error.
unfoldable pub on_response : ℕ → List ℕ → Ed → Ed
unfolding diff_millis copy_into
on_response now p ed =
    if ltb (diff_millis ed.in_buffer.timestamp now) 500
    then record ed {
      in_buffer = record ed.in_buffer {
        packet_l = length p;
        packet = copy_into ed.in_buffer.packet p;
        err = 0;
      };
    }
    else record ed { in_buffer = record ed.in_buffer { packet_l = 0; err = err_timeout } }

-- _enocean_thread, of one packet; the Bool is the broadcast.
unfoldable pub on_packet : ℕ → List ℕ → Ed → Bool × Ed
unfolding on_response call_back get_addr_from_packet
on_packet now p ed =
    if byte_at p 4 == radio_erp1
    then (false, call_back p (get_addr_from_packet p) ed)
    else if byte_at p 4 == enocean_event
    then (false, call_back p (some 0) ed)
    else if byte_at p 4 == enocean_response
    then (true, on_response now p ed)
    else (false, ed)

-- The packets of _enocean_thread, with their times, up to the first broadcast.
unfoldable pub woken_or : (Ed → Bool × Ed) → Bool × Ed → Bool × Ed
woken_or k (true, ed) = (true, ed)
woken_or k (false, ed) = k ed

unfoldable pub listen : List (ℕ × List ℕ) → Ed → Bool × Ed
unfolding woken_or on_packet
listen [] ed = (false, ed)
listen ((now, p) ∷ heard) ed = woken_or (listen heard) (on_packet now p ed)

-- What enocean_send_packet leaves: its response and l_response, or nerr.
pub data Sent : Type 0 where
  answered : List ℕ → ℕ → Sent
  not_sent : ℕ → Sent

-- `in_buffer` as it is set up for the response.
unfoldable pub prepared : ℕ → InBuffer → InBuffer
prepared now b = record b { timestamp = now; packet_l = 0; err = 0 }

-- Behind pthread_cond_timedwait; `timed_out` tells ETIMEDOUT from other errors.
unfoldable pub on_waited : Bool → List ℕ → Bool × Ed → Sent × Ed
unfolding copy_into
on_waited timed_out response (true, ed) =
    if ed.in_buffer.err == 0
    then (
      answered (copy_into response (take ed.in_buffer.packet_l ed.in_buffer.packet)) (
          if leb (length response) ed.in_buffer.packet_l
          then length response
          else ed.in_buffer.packet_l),
      ed,
    )
    else (not_sent ed.in_buffer.err, ed)
on_waited timed_out response (false, ed) =
    (not_sent (if timed_out then err_timeout else err_sys), ed)

-- What a line does with a request: whether it was written, when, what is heard within two seconds
-- and how the wait ends where there is no answer.
pub record Line : Type 0 where
  pub wr : Bool
  pub now : ℕ
  pub heard : List (ℕ × List ℕ)
  pub timed_out : Bool

-- enocean_send_packet; `response` is the caller's array.
unfoldable pub send_packet : Line → List ℕ → List ℕ → Ed → Sent × Ed
unfolding on_waited listen prepared
send_packet line packet response ed =
    if line.wr
    then on_waited line.timed_out response (
        listen line.heard (record ed {
          in_buffer = prepared line.now ed.in_buffer;
          written = ed.written ++ packet ∷ [];
        }))
    else (not_sent err_sys, ed)
