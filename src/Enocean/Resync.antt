-- ===== src/Enocean/Resync.antt =====
-- src/interfaces/type_003/enocean.c: resyncBuffer holds the bytes of a header and no more.
use mea_edomus_lite.Common.{
  ap, subst, sym, ◌*◌, ℕ, suc, ◌+◌, ◌≤◌, ◌≡◌, ◌≢◌, refl, Bool, true, false, none, some, List, [],
  ◌∷◌, ◌++◌, ◌==◌, ltb, leb, length, if◌then◌else◌, arith, lt→ltb, length-append, drop,
}
use mea_edomus_lite.Enocean.{proc_crc8}
use mea_edomus_lite.Enocean.Receive.{
  Step, at_start, at_length_high, at_length_low, at_optional_length, at_type, at_crc8h, at_data,
  at_optional, at_crc8d, at_end, Receiver, startframe, datalength, bad_crc8h, bad_crc8d, timeout,
  outofrange, Processed, more, error, packet, too_long, overrun, max_frame_size, put, on_start,
  on_length_high, on_length_low, on_optional_length, on_type, on_crc8h, on_data, on_optional,
  on_crc8d, delivered, at_step, process_data, ReadResult, resync_overrun, resync_size, replay,
  on_processed, kept_byte, on_kept, read_loop, read_packet,
}

-- The bytes of a header that were read when a step comes.
rank : Step → ℕ
rank at_start = 0
rank at_length_high = 1
rank at_length_low = 2
rank at_optional_length = 3
rank at_type = 4
rank at_crc8h = 5
rank at_data = 6
rank at_optional = 6
rank at_crc8d = 6
rank at_end = 6

behind : (b : Bool) (x y : Step) → 6 ≤ rank x → 6 ≤ rank y → 6 ≤ rank (if b then x else y)
behind true x y hx hy = hx
behind false x y hx hy = hy

kept : Step → ℕ
kept at_start = 1
kept at_length_high = 2
kept at_length_low = 3
kept at_optional_length = 4
kept at_type = 5
kept at_crc8h = 6
kept at_data = 6
kept at_optional = 6
kept at_crc8d = 6
kept at_end = 6

Reaches : ℕ → Processed → Type 0
unfolding rank
Reaches n (more r) = n ≤ rank r.step
Reaches n (error e r) = Unit
Reaches n (packet p r) = Unit
Reaches n (too_long r) = Unit
Reaches n overrun = Unit

put-Reaches :
    (n : ℕ) (next : Step) (c : ℕ) (r : Receiver) → n ≤ rank next → Reaches n (put next c r)
unfolding put Reaches
put-Reaches n next c r h = chosen (ltb (length r.enocean_data) max_frame_size)
  where
    chosen :
        (b : Bool)
        → Reaches n (
            if b
            then more (record r { enocean_data = r.enocean_data ++ c ∷ []; step = next })
            else overrun)
    chosen true = h
    chosen false = tt

delivered-Reaches : (n room : ℕ) (p : Processed) → Reaches n (delivered room p)
unfolding delivered Reaches
delivered-Reaches n room (more r) = chosen (leb (length r.enocean_data) room)
  where
    chosen :
        (b : Bool)
        → Reaches n (if b then packet r.enocean_data r else too_long (record r { step = at_start }))
    chosen true = tt
    chosen false = tt
delivered-Reaches n room (error e r) = tt
delivered-Reaches n room (packet p r) = tt
delivered-Reaches n room (too_long r) = tt
delivered-Reaches n room overrun = tt

either-Reaches :
    (n : ℕ) (b : Bool) (p q : Processed)
    → Reaches n p
    → Reaches n q
    → Reaches n (if b then p else q)
either-Reaches n true p q hp hq = hp
either-Reaches n false p q hp hq = hq

at_step-Reaches :
    (st : Step) (room c : ℕ) (r : Receiver) → r.step ≡ st → Reaches (kept st) (at_step st room c r)
unfolding at_step on_start on_length_high on_length_low on_optional_length on_type on_crc8h on_data
    on_optional on_crc8d Reaches kept rank
at_step-Reaches at_start room c r h = either-Reaches 1 (c == 0x55) _ _ (omega arith) tt
at_step-Reaches at_length_high room c r h =
    put-Reaches 2 at_length_low c (record r { data_l = c; crc8h = proc_crc8 r.crc8h c })
      (omega arith)
at_step-Reaches at_length_low room c r h = either-Reaches 3 ((r.data_l * 256 + c) == 0) _ _ tt (
    put-Reaches 3 at_optional_length c
      (record r { data_l = r.data_l * 256 + c; crc8h = proc_crc8 r.crc8h c }) (omega arith))
at_step-Reaches at_optional_length room c r h =
    put-Reaches 4 at_type c (record r { optional_l = c; crc8h = proc_crc8 r.crc8h c }) (omega arith)
at_step-Reaches at_type room c r h =
    put-Reaches 5 at_crc8h c (record r { packet_type = c; crc8h = proc_crc8 r.crc8h c })
      (omega arith)
at_step-Reaches at_crc8h room c r h =
    either-Reaches 6 (c == r.crc8h) _ _
      (put-Reaches 6 (if r.data_l == 0 then at_optional else at_data) c
        (record r { crc8d = 0; i = 0 })
        (behind (r.data_l == 0) at_optional at_data (omega arith) (omega arith)))
      tt
at_step-Reaches at_data room c r h =
    either-Reaches 6 (leb r.data_l (r.i + 1)) _ _
      (put-Reaches 6 (if r.optional_l == 0 then at_crc8d else at_optional) c
        (record r { i = 0; crc8d = proc_crc8 r.crc8d c })
        (behind (r.optional_l == 0) at_crc8d at_optional (omega arith) (omega arith)))
      (put-Reaches 6 at_data c (record r { i = r.i + 1; crc8d = proc_crc8 r.crc8d c })
        (omega arith))
at_step-Reaches at_optional room c r h =
    put-Reaches 6 (if leb r.optional_l (r.i + 1) then at_crc8d else at_optional) c
      (record r { i = r.i + 1; crc8d = proc_crc8 r.crc8d c })
      (behind (leb r.optional_l (r.i + 1)) at_crc8d at_optional (omega arith) (omega arith))
at_step-Reaches at_crc8d room c r h =
    either-Reaches 6 (c == r.crc8d) _ _ (delivered-Reaches 6 room (put at_end c r)) tt
at_step-Reaches at_end room c r h = omega (arith, ap rank h)

header_byte :
    (c n : ℕ) (resync : List ℕ)
    → length resync ≤ n
    → n ≤ 5
    → (resync2 : List ℕ) × (((if ltb (length resync) resync_size
            then some (resync ++ c ∷ [])
            else none)
          ≡ some resync2)
        × (length resync2 ≤ suc n))
header_byte c n resync h hn = (
  resync ++ c ∷ [],
  (
    rw (lt→ltb (length resync) resync_size (omega (arith, h, hn))) refl,
    omega (arith, h, length-append resync (c ∷ [])),
  ),
)

-- The byte of a header is kept, that of another part is not.
kept_byte-some :
    (st : Step) (c : ℕ) (resync : List ℕ)
    → length resync ≤ rank st
    → (resync2 : List ℕ) × ((kept_byte st c resync ≡ some resync2) × (length resync2 ≤ kept st))
unfolding kept_byte kept rank
kept_byte-some at_start c resync h = header_byte c 0 resync h (omega arith)
kept_byte-some at_length_high c resync h = header_byte c 1 resync h (omega arith)
kept_byte-some at_length_low c resync h = header_byte c 2 resync h (omega arith)
kept_byte-some at_optional_length c resync h = header_byte c 3 resync h (omega arith)
kept_byte-some at_type c resync h = header_byte c 4 resync h (omega arith)
kept_byte-some at_crc8h c resync h = header_byte c 5 resync h (omega arith)
kept_byte-some at_data c resync h = (resync, (refl, h))
kept_byte-some at_optional c resync h = (resync, (refl, h))
kept_byte-some at_crc8d c resync h = (resync, (refl, h))
kept_byte-some at_end c resync h = (resync, (refl, h))

Stays : ReadResult → Type 0
Stays w = w ≢ resync_overrun

on_processed-Stays :
    (room : ℕ) (k : List ℕ → Receiver → ReadResult) (resync : List ℕ) (p : Processed) (n : ℕ)
    → ((resync2 : List ℕ) (r : Receiver) → length resync2 ≤ rank r.step → Stays (k resync2 r))
    → length resync ≤ n
    → Reaches n p
    → Stays (on_processed room k resync p)
unfolding on_processed Reaches Stays
on_processed-Stays room k resync (more r) n hk hl hr = hk resync r (omega (arith, hl, hr))
on_processed-Stays room k resync (error bad_crc8h r) n hk hl hr =
    hk [] (replay room (drop 1 resync) (record r { step = at_start })) (omega arith)
on_processed-Stays room k resync (error startframe r) n hk hl hr = hk [] r (omega arith)
on_processed-Stays room k resync (error datalength r) n hk hl hr = λ e. cc
on_processed-Stays room k resync (error bad_crc8d r) n hk hl hr = λ e. cc
on_processed-Stays room k resync (error timeout r) n hk hl hr = λ e. cc
on_processed-Stays room k resync (error outofrange r) n hk hl hr = λ e. cc
on_processed-Stays room k resync (packet p r) n hk hl hr = λ e. cc
on_processed-Stays room k resync (too_long r) n hk hl hr = λ e. cc
on_processed-Stays room k resync overrun n hk hl hr = λ e. cc

read_loop-Stays :
    (room : ℕ) (s resync : List ℕ) (r : Receiver)
    → length resync ≤ rank r.step
    → Stays (read_loop room s resync r)
unfolding read_loop Stays process_data on_kept
read_loop-Stays room [] resync r h = λ e. cc
read_loop-Stays room (c ∷ s) resync r h =
    let next = kept_byte-some r.step c resync h in
    subst (λ o. Stays (on_kept room (read_loop room s) c r o)) (sym next.1.0)
      (kept_on (λ q z hz. read_loop-Stays room s q z hz) next.0 next.1.1)
  where
    kept_on :
        ((q : List ℕ) (z : Receiver) → length q ≤ rank z.step → Stays (read_loop room s q z))
        → (resync2 : List ℕ) → length resync2 ≤ kept r.step
        → Stays (on_kept room (read_loop room s) c r (some resync2))
    kept_on rest resync2 h2 =
        on_processed-Stays room (read_loop room s) resync2 (process_data room c r) (kept r.step)
          rest h2 (at_step-Reaches r.step room c r refl)

-- _enocean_read_packet never writes behind resyncBuffer, whatever bytes it reads and whatever
-- the static variables of _enocean_process_data are.
pub read_packet-resync_overrun :
    (room : ℕ) (s : List ℕ) (r : Receiver) → read_packet room s r ≢ resync_overrun
unfolding read_packet Stays rank
read_packet-resync_overrun room s r =
    read_loop-Stays room s [] (record r { step = at_start }) (omega arith)
