-- ===== src/Enocean/Receive.antt =====
-- src/interfaces/type_003/enocean.c: _enocean_process_data, the state machine that takes a frame byte
-- by byte, and _enocean_read_packet, which feeds it. The static variables are the Receiver.
use mea_edomus_lite.Common.{
  ℕ, ◌+◌, ◌*◌, Bool, true, false, Option, none, some, List, [], ◌∷◌, ◌++◌, ◌==◌, leb, ltb, length,
  drop, if◌then◌else◌,
}
use mea_edomus_lite.Enocean.{proc_crc8}

-- *step, from 0 to 9
pub data Step : Type 0 where
  at_start : Step
  at_length_high : Step
  at_length_low : Step
  at_optional_length : Step
  at_type : Step
  at_crc8h : Step
  at_data : Step
  at_optional : Step
  at_crc8d : Step
  at_end : Step

-- The static variables; enocean_dataPtr is the length of enocean_data.
pub record Receiver : Type 0 where
  pub step : Step
  pub i : ℕ
  pub enocean_data : List ℕ
  pub data_l : ℕ
  pub optional_l : ℕ
  pub crc8h : ℕ
  pub crc8d : ℕ
  pub packet_type : ℕ

-- ENOCEAN_ERR_STARTFRAME and the like.
pub data ReadError : Type 0 where
  startframe : ReadError
  datalength : ReadError
  bad_crc8h : ReadError
  bad_crc8d : ReadError
  timeout : ReadError
  outofrange : ReadError

-- What _enocean_process_data returns: 0, -1 with its error, or 1 with the packet or with none, where
-- it does not fit. `overrun` is a write behind enocean_data.
pub data Processed : Type 0 where
  more : Receiver → Processed
  error : ReadError → Receiver → Processed
  packet : List ℕ → Receiver → Processed
  too_long : Receiver → Processed
  overrun : Processed

-- ENOCEAN_MAX_FRAME_SIZE, the size of enocean_data
abbrev pub max_frame_size : ℕ
max_frame_size = 65535

-- `enocean_data[enocean_dataPtr++]=c` and the step that comes next.
unfoldable pub put : Step → ℕ → Receiver → Processed
put next c r =
    if ltb (length r.enocean_data) max_frame_size
    then more (record r { enocean_data = r.enocean_data ++ c ∷ []; step = next })
    else overrun

unfoldable pub on_start : ℕ → Receiver → Processed
on_start c r =
    if c == 0x55
    then more (record r {
      crc8h = 0;
      crc8d = 0;
      data_l = 0;
      optional_l = 0;
      enocean_data = c ∷ [];
      step = at_length_high;
    })
    else error startframe r

unfoldable pub on_length_high : ℕ → Receiver → Processed
unfolding put
on_length_high c r = put at_length_low c (record r { data_l = c; crc8h = proc_crc8 r.crc8h c })

unfoldable pub on_length_low : ℕ → Receiver → Processed
unfolding put
on_length_low c r =
    let r2 = record r { data_l = r.data_l * 256 + c; crc8h = proc_crc8 r.crc8h c } in
    if r2.data_l == 0
    then error datalength (record r2 { step = at_start })
    else put at_optional_length c r2

unfoldable pub on_optional_length : ℕ → Receiver → Processed
unfolding put
on_optional_length c r = put at_type c (record r { optional_l = c; crc8h = proc_crc8 r.crc8h c })

unfoldable pub on_type : ℕ → Receiver → Processed
unfolding put
on_type c r = put at_crc8h c (record r { packet_type = c; crc8h = proc_crc8 r.crc8h c })

unfoldable pub on_crc8h : ℕ → Receiver → Processed
unfolding put
on_crc8h c r =
    if c == r.crc8h
    then put (if r.data_l == 0 then at_optional else at_data) c (record r { crc8d = 0; i = 0 })
    else error bad_crc8h (record r { step = at_start })

-- Where the data end, `i` starts again.
unfoldable pub on_data : ℕ → Receiver → Processed
unfolding put
on_data c r =
    let r2 = record r { i = r.i + 1; crc8d = proc_crc8 r.crc8d c } in
    if leb r.data_l (r.i + 1)
    then put (if r.optional_l == 0 then at_crc8d else at_optional) c (record r2 { i = 0 })
    else put at_data c r2

unfoldable pub on_optional : ℕ → Receiver → Processed
unfolding put
on_optional c r =
    put (if leb r.optional_l (r.i + 1) then at_crc8d else at_optional) c
      (record r { i = r.i + 1; crc8d = proc_crc8 r.crc8d c })

-- The packet, in a buffer of `room` bytes.
unfoldable pub delivered : ℕ → Processed → Processed
delivered room (more r) =
    if leb (length r.enocean_data) room
    then packet r.enocean_data r
    else too_long (record r { step = at_start })
delivered room (error e r) = error e r
delivered room (packet p r) = packet p r
delivered room (too_long r) = too_long r
delivered room overrun = overrun

unfoldable pub on_crc8d : ℕ → ℕ → Receiver → Processed
unfolding put delivered
on_crc8d room c r =
    if c == r.crc8d
    then delivered room (put at_end c r)
    else error bad_crc8d (record r { step = at_start })

unfoldable pub at_step : Step → ℕ → ℕ → Receiver → Processed
unfolding on_start on_length_high on_length_low on_optional_length on_type on_crc8h on_data
    on_optional on_crc8d
at_step at_start room c r = on_start c r
at_step at_length_high room c r = on_length_high c r
at_step at_length_low room c r = on_length_low c r
at_step at_optional_length room c r = on_optional_length c r
at_step at_type room c r = on_type c r
at_step at_crc8h room c r = on_crc8h c r
at_step at_data room c r = on_data c r
at_step at_optional room c r = on_optional c r
at_step at_crc8d room c r = on_crc8d room c r
at_step at_end room c r = more r

-- _enocean_process_data
unfoldable pub process_data : ℕ → ℕ → Receiver → Processed
unfolding at_step
process_data room c r = at_step r.step room c r

-- `step < 6`
abbrev pub in_header : Step → Bool
in_header at_data = false
in_header at_optional = false
in_header at_crc8d = false
in_header at_end = false
in_header _ = true

-- What _enocean_read_packet returns. `resync_overrun` is a write behind resyncBuffer.
pub data ReadResult : Type 0 where
  received : List ℕ → Receiver → ReadResult
  refused : ReadError → Receiver → ReadResult
  data_overrun : ReadResult
  resync_overrun : ReadResult

abbrev pub resync_size : ℕ
resync_size = 6

-- One byte of the replay, whose outcome is not looked at.
unfoldable pub receiver_of : Processed → Receiver → Receiver
receiver_of (more r) old = r
receiver_of (error e r) old = r
receiver_of (packet p r) old = r
receiver_of (too_long r) old = r
receiver_of overrun old = old

unfoldable pub replay : ℕ → List ℕ → Receiver → Receiver
unfolding receiver_of process_data
replay room [] r = r
replay room (c ∷ s) r = replay room s (receiver_of (process_data room c r) r)

-- Behind _enocean_process_data; `k` is the loop, with the resyncBuffer.
unfoldable pub on_processed : ℕ → (List ℕ → Receiver → ReadResult) → List ℕ → Processed → ReadResult
unfolding replay
on_processed room k resync (more r) = k resync r
on_processed room k resync (error bad_crc8h r) =
    k [] (replay room (drop 1 resync) (record r { step = at_start }))
on_processed room k resync (error startframe r) = k [] r
on_processed room k resync (error datalength r) = refused datalength r
on_processed room k resync (error bad_crc8d r) = refused bad_crc8d r
on_processed room k resync (error timeout r) = refused timeout r
on_processed room k resync (error outofrange r) = refused outofrange r
on_processed room k resync (packet p r) = received p r
on_processed room k resync (too_long r) = received [] r
on_processed room k resync overrun = data_overrun

-- `resyncBuffer[resyncBufferPtr++]=c`; none is a write behind it.
unfoldable pub kept_byte : Step → ℕ → List ℕ → Option (List ℕ)
kept_byte step c resync =
    if in_header step
    then if ltb (length resync) resync_size then some (resync ++ c ∷ []) else none
    else some resync

unfoldable pub on_kept :
    ℕ → (List ℕ → Receiver → ReadResult) → ℕ → Receiver → Option (List ℕ) → ReadResult
unfolding on_processed
on_kept room k c r none = resync_overrun
on_kept room k c r (some resync) = on_processed room k resync (process_data room c r)

-- The loop of _enocean_read_packet over the bytes that come before a timeout.
unfoldable pub read_loop : ℕ → List ℕ → List ℕ → Receiver → ReadResult
unfolding on_kept kept_byte
read_loop room [] resync r = refused timeout r
read_loop room (c ∷ s) resync r = on_kept room (read_loop room s) c r (kept_byte r.step c resync)

-- _enocean_read_packet
unfoldable pub read_packet : ℕ → List ℕ → Receiver → ReadResult
unfolding read_loop
read_packet room s r = read_loop room s [] (record r { step = at_start })
