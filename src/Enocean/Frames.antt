-- ===== src/Enocean/Frames.antt =====
-- src/interfaces/type_003/enocean.c: a whole frame, and the radio telegrams.
use mea_edomus_lite.Common.{
  ℕ, suc, ◌+◌, ◌*◌, ◌≤◌, ◌<◌, ◌≡◌, refl, ap, sym, ◌∙◌, true, false, List, [], ◌∷◌, ◌++◌, ◌==◌, leb,
  length, if◌then◌else◌, arith, ==_refl, le→leb, lt→ltb, append_assoc, append-nil, length-append,
  All,
}
use mea_edomus_lite.Enocean.{proc_crc8, crc8, frame}
use mea_edomus_lite.Enocean.Receive.{
  at_start, at_data, at_optional, at_crc8d, at_end, Receiver, max_frame_size, put, on_start,
  on_length_high, on_length_low, on_optional_length, on_type, on_crc8h, on_crc8d, delivered,
  at_step, process_data, received, on_processed, kept_byte, on_kept, read_loop, read_packet,
}
use mea_edomus_lite.Enocean.Accepts.{rx, behind_data, read_loop-payload, read_loop-optional}

abbrev pub header : ℕ → ℕ → ℕ → List ℕ
header n m ptype = 0 ∷ n ∷ m ∷ ptype ∷ []

-- No byte that starts a frame.
abbrev pub Noise : List ℕ → Type 0
Noise s = All (λ c. (c == 0x55) ≡ false) s

pub crc8-append : (crc : ℕ) (s t : List ℕ) → crc8 crc (s ++ t) ≡ crc8 (crc8 crc s) t
unfolding crc8
crc8-append crc [] t = refl
crc8-append crc (c ∷ s) t = crc8-append (proc_crc8 crc c) s t

behind_data-some : (m k : ℕ) → m ≡ suc k → behind_data m ≡ at_optional
behind_data-some m k h = ap (λ b. if b then at_crc8d else at_optional) (nonzero m k h)
  where
    nonzero : (x y : ℕ) → x ≡ suc y → (x == 0) ≡ false
    nonzero x y e = ground (arith, e)

module _ (room : ℕ) where
  read_loop-header :
      (n m ptype : ℕ) (rest : List ℕ) (r : Receiver)
      → 1 ≤ n
      → read_loop room
          (0x55 ∷ (header n m ptype ++ crc8 0 (header n m ptype) ∷ rest))
          []
          (record r { step = at_start })
        ≡ read_loop room rest (0x55 ∷ (header n m ptype ++ crc8 0 (header n m ptype) ∷ [])) (
            rx at_data 0
              (0x55 ∷ (header n m ptype ++ crc8 0 (header n m ptype) ∷ []))
              (0 * 256 + n)
              m
              (crc8 0 (header n m ptype))
              0
              ptype)
  unfolding read_loop kept_byte on_kept on_processed process_data at_step put on_start
      on_length_high on_length_low on_optional_length on_type on_crc8h crc8
  read_loop-header n m ptype rest r h =
      rw (some_data, ==_refl (crc8 0 (header n m ptype)), some_data) refl
    where
      some_data : ((0 * 256 + n) == 0) ≡ false
      some_data = ground (arith, h)

  read_loop-Noise :
      (s rest : List ℕ) (r : Receiver)
      → Noise s
      → read_loop room (s ++ rest) [] (record r { step = at_start })
        ≡ read_loop room rest [] (record r { step = at_start })
  unfolding read_loop kept_byte on_kept on_processed process_data at_step on_start
  read_loop-Noise [] rest r h = refl
  read_loop-Noise (c ∷ s) rest r (hc, h) = rw (hc) (read_loop-Noise s rest r h)

  read_loop-crc8d :
      (c : ℕ) (rest resync : List ℕ) (i : ℕ) (buf : List ℕ) (dl ol ch cd pt : ℕ)
      → c ≡ cd
      → length buf + 1 ≤ room
      → length buf < max_frame_size
      → read_loop room (c ∷ rest) resync (rx at_crc8d i buf dl ol ch cd pt)
        ≡ received (buf ++ c ∷ []) (rx at_end i (buf ++ c ∷ []) dl ol ch cd pt)
  unfolding read_loop kept_byte on_kept on_processed process_data at_step on_crc8d put delivered
  read_loop-crc8d c rest resync i buf dl ol ch cd pt hc hr hb =
      rw (ap (λ d. c == d) (sym hc) ∙ ==_refl c, lt→ltb (length buf) max_frame_size hb, fits) refl
    where
      fits : leb (length (buf ++ c ∷ [])) room ≡ true
      fits = le→leb (length (buf ++ c ∷ [])) room (omega (arith, hr, length-append buf (c ∷ [])))

  -- From the header on to the last checksum.
  pub read_loop-crc8d_next :
      (c : ℕ) (s optional rest buf resync : List ℕ) (n m ch pt : ℕ)
      → n ≡ length (c ∷ s)
      → m ≡ length optional
      → length buf + length (c ∷ s) + m < max_frame_size
      → (i : ℕ) × (read_loop room
            ((c ∷ s) ++ (optional ++ rest))
            resync
            (rx at_data 0 buf n m ch 0 pt)
          ≡ read_loop room rest resync (
              rx at_crc8d i
                (buf ++ ((c ∷ s) ++ optional))
                n
                m
                ch
                (crc8 0 ((c ∷ s) ++ optional))
                pt))
  read_loop-crc8d_next c s [] rest buf resync n m ch pt hn hm hb = (
    0,
    read_loop-payload room c s rest resync 0 buf n m ch 0 pt (omega (arith, hn)) (omega (arith, hb))
        ∙ (ap
              (λ k.
                read_loop room rest resync
                  (rx (behind_data k) 0 (buf ++ c ∷ s) n m ch (crc8 0 (c ∷ s)) pt))
              hm
            ∙ ap (λ p. read_loop room rest resync (rx at_crc8d 0 (buf ++ p) n m ch (crc8 0 p) pt))
                (sym (append-nil (c ∷ s)))),
  )
  read_loop-crc8d_next c s (d ∷ o) rest buf resync n m ch pt hn hm hb =
      let bytes = buf ++ c ∷ s in
      let cd = crc8 (crc8 0 (c ∷ s)) (d ∷ o) in
      let i = 0 + length (d ∷ o) in
      let short : length bytes ≡ length buf + length (c ∷ s) = length-append buf (c ∷ s) in
      (
        i,
        read_loop-payload room c s (d ∷ (o ++ rest)) resync 0 buf n m ch 0 pt (omega (arith, hn))
              (omega (arith, hb))
            ∙ (ap
                  (λ st.
                    read_loop room (d ∷ (o ++ rest)) resync
                      (rx st 0 bytes n m ch (crc8 0 (c ∷ s)) pt))
                  (behind_data-some m (length o) hm)
                ∙ (read_loop-optional room d o rest resync 0 bytes n m ch (crc8 0 (c ∷ s)) pt
                      (omega (arith, hm)) (omega (arith, hb, hm, short))
                    ∙ (ap (λ b. read_loop room rest resync (rx at_crc8d i b n m ch cd pt))
                          (append_assoc buf (c ∷ s) (d ∷ o))
                        ∙ ap
                            (λ k.
                              read_loop room rest resync
                                (rx at_crc8d i (buf ++ ((c ∷ s) ++ d ∷ o)) n m ch k pt))
                            (sym (crc8-append 0 (c ∷ s) (d ∷ o)))))),
      )

  -- A frame with any byte as its last checksum, up to that.
  pub read_packet-crc8d :
      (noise : List ℕ) (ptype c : ℕ) (s optional rest : List ℕ) (r : Receiver)
      → Noise noise
      → length (c ∷ s) < 256
      → length optional < 256
      → (let n = length (c ∷ s) in
          let m = length optional in
          let ch = crc8 0 (header n m ptype) in
          let start = 0x55 ∷ (header n m ptype ++ ch ∷ []) in
          (i : ℕ) × (read_packet room (noise ++ (start ++ ((c ∷ s) ++ (optional ++ rest)))) r
            ≡ read_loop room rest start (
                rx at_crc8d i
                  (start ++ ((c ∷ s) ++ optional))
                  (0 * 256 + n)
                  m
                  ch
                  (crc8 0 ((c ∷ s) ++ optional))
                  ptype)))
  unfolding read_packet
  read_packet-crc8d noise ptype c s optional rest r hn hc ho =
      let n = length (c ∷ s) in
      let m = length optional in
      let ch = crc8 0 (header n m ptype) in
      let start = 0x55 ∷ (header n m ptype ++ ch ∷ []) in
      let body =
        read_loop-crc8d_next c s optional rest start start (0 * 256 + n) m ch ptype (omega arith)
          refl (omega (arith, hc, ho)) in
      (
        body.0,
        read_loop-Noise noise (start ++ ((c ∷ s) ++ (optional ++ rest))) r hn
            ∙ (read_loop-header n m ptype ((c ∷ s) ++ (optional ++ rest)) r (omega arith) ∙ body.1),
      )

  -- Behind bytes that start no frame, a frame is read as it is, whatever comes after it.
  pub read_packet-frame :
      (noise tail : List ℕ) (ptype c : ℕ) (s optional : List ℕ) (r : Receiver)
      → Noise noise
      → length (c ∷ s) < 256
      → length optional < 256
      → length (frame ptype (c ∷ s) optional) ≤ room
      → (r2 : Receiver) × (read_packet room (noise ++ (frame ptype (c ∷ s) optional ++ tail)) r
          ≡ received (frame ptype (c ∷ s) optional) r2)
  unfolding frame
  read_packet-frame noise tail ptype c s optional r hn hc ho hr =
      let n = length (c ∷ s) in
      let m = length optional in
      let ch = crc8 0 (header n m ptype) in
      let cd = crc8 0 ((c ∷ s) ++ optional) in
      let start = 0x55 ∷ (header n m ptype ++ ch ∷ []) in
      let data_size : length ((c ∷ s) ++ optional) ≡ n + m = length-append (c ∷ s) optional in
      let size : length ((c ∷ s) ++ (optional ++ cd ∷ [])) ≡ n + (m + 1) =
        length-append (c ∷ s) (optional ++ cd ∷ [])
        ∙ ap (λ k. n + k) (length-append optional (cd ∷ [])) in
      let up_to = read_packet-crc8d noise ptype c s optional (cd ∷ tail) r hn hc ho in
      let i = up_to.0 in
      (
        rx at_end i ((start ++ ((c ∷ s) ++ optional)) ++ cd ∷ []) (0 * 256 + n) m ch cd ptype,
        ap (λ b. read_packet room (noise ++ (start ++ b)) r)
              (append_assoc (c ∷ s) (optional ++ cd ∷ []) tail
                ∙ ap (λ b. (c ∷ s) ++ b) (append_assoc optional (cd ∷ []) tail))
            ∙ (up_to.1
                ∙ (read_loop-crc8d cd tail start i (start ++ ((c ∷ s) ++ optional)) (0 * 256 + n) m
                      ch cd ptype refl (omega (arith, hr, size, data_size))
                      (omega (arith, hc, ho, data_size))
                    ∙ ap
                        (λ b. received (start ++ b) (
                          rx at_end i ((start ++ ((c ∷ s) ++ optional)) ++ cd ∷ []) (0 * 256 + n) m
                            ch cd ptype))
                        (append_assoc (c ∷ s) optional (cd ∷ [])))),
      )
