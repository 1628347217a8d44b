-- ===== src/Enocean/Detects.antt =====
-- src/interfaces/type_003/enocean.c: the checksum of the data finds a byte that was changed.
use mea_edomus_lite.Common.{
  ◌≢◌, ℕ, zero, suc, ◌+◌, ◌*◌, ◌≤◌, ◌<◌, ◌≡◌, refl, ap, sym, ◌∙◌, false, List, [], ◌∷◌, ◌++◌, ◌==◌,
  length, arith, append_assoc, length-append, subst, take, drop,
}
use mea_edomus_lite.Enocean.{proc_crc8, crc8, frame}
use mea_edomus_lite.Enocean.Crc.{Bytes, crc8-one, crc8-Byte, proc_crc8_self}
use mea_edomus_lite.Enocean.Receive.{
  at_crc8d, at_start, Receiver, bad_crc8d, on_crc8d, at_step, process_data, refused, on_processed,
  kept_byte, on_kept, read_loop, read_packet,
}
use mea_edomus_lite.Enocean.Accepts.{rx}
use mea_edomus_lite.Enocean.Frames.{Noise, header, crc8-append, read_packet-crc8d}

split_at :
    (n : ℕ) (w : List ℕ)
    → n ≤ length w
    → (u : List ℕ) × ((v : List ℕ) × ((w ≡ u ++ v) × (length u ≡ n)))
split_at zero w h = ([], (w, (refl, refl)))
split_at (suc n) [] h = absurd (omega arith)
split_at (suc n) (c ∷ w) h =
    let parts = split_at n w (omega arith) in
    (c ∷ parts.0, (parts.1.0, (ap (λ t. c ∷ t) parts.1.1.0, ap suc parts.1.1.1)))

one_byte : (w : List ℕ) → length w ≡ 1 → (c : ℕ) × (w ≡ c ∷ [])
one_byte [] h = absurd (omega (arith, h))
one_byte (c ∷ []) h = (c, refl)
one_byte (c ∷ d ∷ w) h = absurd (omega (arith, h))

Parts : ℕ → ℕ → List ℕ → Type 0
Parts n m w =
    (c : ℕ) × ((s : List ℕ) × ((o : List ℕ) × ((k : ℕ) × ((w ≡ (c ∷ s) ++ (o ++ k ∷ []))
            × ((length (c ∷ s) ≡ suc n) × (length o ≡ m))))))

-- As long as the data, the optional data and a checksum.
parts : (n m : ℕ) (w : List ℕ) → length w ≡ suc n + (m + 1) → Parts n m w
unfolding Parts
parts n m [] h = absurd (omega (arith, h))
parts n m (c ∷ w) h =
    let first = split_at n w (omega (arith, h)) in
    let s = first.0 in
    let v = first.1.0 in
    let size : length v ≡ m + 1 =
      omega (arith, h, ap length first.1.1.0, length-append s v, first.1.1.1) in
    let second = split_at m v (omega (arith, size)) in
    let o = second.0 in
    let last =
      one_byte second.1.0
        (omega (arith, size, ap length second.1.1.0, length-append o second.1.0, second.1.1.1)) in
    (
      c,
      (
        s,
        (
          o,
          (
            last.0,
            (
              ap (λ t. c ∷ t)
                  (first.1.1.0 ∙ ap (λ t. s ++ t) (second.1.1.0 ∙ ap (λ t. o ++ t) last.1)),
              (ap suc first.1.1.1, second.1.1.1),
            ),
          ),
        ),
      ),
    )

-- A checksum behind what it is of.
syndrome : (s o : List ℕ) (k : ℕ) → k ≡ crc8 0 (s ++ o) → k < 256 → crc8 0 (s ++ (o ++ k ∷ [])) ≡ 0
unfolding crc8
syndrome s o k h hk =
    ap (crc8 0) (sym (append_assoc s o (k ∷ [])))
    ∙ (crc8-append 0 (s ++ o) (k ∷ []) ∙ (ap (λ z. proc_crc8 z k) (sym h) ∙ proc_crc8_self k hk))

Bytes-at : (s t : List ℕ) (x : ℕ) → Bytes (s ++ x ∷ t) → x < 256
Bytes-at [] t x (hx, h) = hx
Bytes-at (c ∷ s) t x (hc, h) = Bytes-at s t x h

Bytes-put : (s t : List ℕ) (x y : ℕ) → Bytes (s ++ x ∷ t) → y < 256 → Bytes (s ++ y ∷ t)
Bytes-put [] t x y (hx, h) hy = (hy, h)
Bytes-put (c ∷ s) t x y (hc, h) hy = (hc, Bytes-put s t x y h hy)

length-put : (s t : List ℕ) (x y : ℕ) → length (s ++ x ∷ t) ≡ length (s ++ y ∷ t)
length-put [] t x y = refl
length-put (c ∷ s) t x y = ap suc (length-put s t x y)

read_loop-bad_crc8d :
    (room c : ℕ) (rest resync : List ℕ) (i : ℕ) (buf : List ℕ) (dl ol ch cd pt : ℕ)
    → (c == cd) ≡ false
    → read_loop room (c ∷ rest) resync (rx at_crc8d i buf dl ol ch cd pt)
      ≡ refused bad_crc8d (rx at_start i buf dl ol ch cd pt)
unfolding read_loop kept_byte on_kept on_processed process_data at_step on_crc8d
read_loop-bad_crc8d room c rest resync i buf dl ol ch cd pt h = rw (h) refl

-- A frame whose last byte is not the checksum of its data.
read_packet-bad_crc8d :
    (room : ℕ) (noise tail : List ℕ) (ptype n m : ℕ) (c : ℕ) (s o : List ℕ) (k : ℕ) (r : Receiver)
    → Noise noise
    → length (c ∷ s) ≡ n
    → length o ≡ m
    → n < 256
    → m < 256
    → (k == crc8 0 ((c ∷ s) ++ o)) ≡ false
    → (r2 : Receiver) × (read_packet room
          (noise
            ++ ((0x55 ∷ (header n m ptype ++ crc8 0 (header n m ptype) ∷ []))
                ++ ((c ∷ s) ++ (o ++ k ∷ tail))))
          r
        ≡ refused bad_crc8d r2)
read_packet-bad_crc8d room noise tail ptype n m c s o k r hn h1 h2 b1 b2 hk =
    subst2
      (λ x y.
        (r2 : Receiver) × (read_packet room
            (noise
              ++ ((0x55 ∷ (header x y ptype ++ crc8 0 (header x y ptype) ∷ []))
                  ++ ((c ∷ s) ++ (o ++ k ∷ tail))))
            r
          ≡ refused bad_crc8d r2))
      h1 h2
      (let x = length (c ∷ s) in
        let y = length o in
        let ch = crc8 0 (header x y ptype) in
        let start = 0x55 ∷ (header x y ptype ++ ch ∷ []) in
        let reads =
          read_packet-crc8d room noise ptype c s o (k ∷ tail) r hn (omega (arith, h1, b1))
            (omega (arith, h2, b2)) in
        (
          rx at_start reads.0 (start ++ ((c ∷ s) ++ o)) (0 * 256 + x) y ch (crc8 0 ((c ∷ s) ++ o))
              ptype,
          reads.1
              ∙ read_loop-bad_crc8d room k tail start reads.0 (start ++ ((c ∷ s) ++ o))
                  (0 * 256 + x) y ch (crc8 0 ((c ∷ s) ++ o)) ptype hk,
        ))
  where
    subst2 : (P : ℕ → ℕ → Type 0) {x x2 y y2 : ℕ} → x ≡ x2 → y ≡ y2 → P x y → P x2 y2
    subst2 P {x} {x2} {y} {y2} e f p = subst (λ z. P z y2) e (subst (λ z. P x z) f p)

-- Of two byte sequences that differ in one place, one at most ends in its checksum.
one_changed :
    (before back : List ℕ) (x y : ℕ) (s o : List ℕ) (k : ℕ)
    → crc8 0 (before ++ x ∷ back) ≡ 0
    → Bytes (before ++ x ∷ back)
    → y < 256
    → x ≢ y
    → before ++ y ∷ back ≡ s ++ (o ++ k ∷ [])
    → (k == crc8 0 (s ++ o)) ≡ false
one_changed before back x y s o k good hb hy differ e = not_equal k (crc8 0 (s ++ o)) (λ h. differ (
    crc8-one before x y back 0 (omega arith) hb hy
      (good ∙ sym (ap (crc8 0) e ∙ syndrome s o k h small))))
  where
    not_equal : (a b : ℕ) → ¬ (a ≡ b) → (a == b) ≡ false
    not_equal a b h = ground arith

    last : (s o : List ℕ) → Bytes (s ++ (o ++ k ∷ [])) → k < 256
    last [] [] (h, t) = h
    last [] (c ∷ o) (h, t) = last [] o t
    last (c ∷ s) o (h, t) = last s o t

    small : k < 256
    small = last s o (subst Bytes e (Bytes-put before back x y hb hy))

-- If one byte behind the header of a frame is changed, in its data, its optional data or the
-- checksum, _enocean_read_packet ends with ENOCEAN_ERR_CRC8D, whatever follows the frame; each
-- part of the data has less than 256 bytes, the first has one at least, and what comes before
-- the frame is no 0x55.
pub read_packet-changed :
    (room : ℕ) (noise tail : List ℕ) (ptype c : ℕ) (s optional : List ℕ) (r : Receiver)
    (before back : List ℕ) (x y : ℕ)
    → Noise noise
    → length (c ∷ s) < 256
    → length optional < 256
    → drop 6 (frame ptype (c ∷ s) optional) ≡ before ++ x ∷ back
    → Bytes (before ++ x ∷ back)
    → y < 256
    → x ≢ y
    → (r2 : Receiver) × (read_packet room
          (noise ++ (take 6 (frame ptype (c ∷ s) optional) ++ (before ++ y ∷ (back ++ tail))))
          r
        ≡ refused bad_crc8d r2)
unfolding frame Parts
read_packet-changed room noise tail ptype c s optional r before back x y hn h1 h2 e hb hy differ =
    let n = length (c ∷ s) in
    let m = length optional in
    let cd = crc8 0 ((c ∷ s) ++ optional) in
    let start = 0x55 ∷ (header n m ptype ++ crc8 0 (header n m ptype) ∷ []) in
    let size : length (before ++ y ∷ back) ≡ n + (m + 1) =
      sym (length-put before back x y)
      ∙ (ap length (sym e)
          ∙ (length-append (c ∷ s) (optional ++ cd ∷ [])
              ∙ ap (λ z. n + z) (length-append optional (cd ∷ [])))) in
    let p = parts (length s) m (before ++ y ∷ back) size in
    let c2 = p.0 in
    let s2 = p.1.0 in
    let o2 = p.1.1.0 in
    let k = p.1.1.1.0 in
    let whole = p.1.1.1.1.0 in
    let lengths = p.1.1.1.1.1 in
    let good : crc8 0 (before ++ x ∷ back) ≡ 0 =
      ap (crc8 0) (sym e)
      ∙ syndrome (c ∷ s) optional cd refl (
          crc8-Byte ((c ∷ s) ++ optional) 0 (omega arith)
            (Bytes-data (c ∷ s) optional cd (subst Bytes (sym e) hb))) in
    let bad = one_changed before back x y (c2 ∷ s2) o2 k good hb hy differ whole in
    let rejected =
      read_packet-bad_crc8d room noise tail ptype n m c2 s2 o2 k r hn lengths.0 lengths.1 h1 h2
        bad in
    (
      rejected.0,
      ap (λ z. read_packet room (noise ++ (start ++ z)) r)
            (sym (append_assoc before (y ∷ back) tail)
              ∙ (ap (λ z. z ++ tail) whole
                  ∙ (append_assoc (c2 ∷ s2) (o2 ++ k ∷ []) tail
                      ∙ ap (λ z. (c2 ∷ s2) ++ z) (append_assoc o2 (k ∷ []) tail))))
          ∙ rejected.1,
    )
  where
    Bytes-data : (u v : List ℕ) (z : ℕ) → Bytes (u ++ (v ++ z ∷ [])) → Bytes (u ++ v)
    Bytes-data [] [] z h = tt
    Bytes-data [] (b ∷ v) z (hb2, h) = (hb2, Bytes-data [] v z h)
    Bytes-data (b ∷ u) v z (hb2, h) = (hb2, Bytes-data u v z h)
