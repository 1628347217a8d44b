-- ===== src/Enocean/Accepts.antt =====
-- src/interfaces/type_003/enocean.c: frames that are read as they were built.
use mea_edomus_lite.Common.{
  ℕ, ◌+◌, ◌<◌, ◌≡◌, refl, ap, ◌∙◌, false, List, [], ◌∷◌, ◌++◌, ◌==◌, leb, length, if◌then◌else◌,
  arith, le→leb, lt→ltb, append_assoc, length-append,
}
use mea_edomus_lite.Enocean.{proc_crc8, crc8}
use mea_edomus_lite.Enocean.Receive.{
  Step, at_data, at_optional, at_crc8d, Receiver, max_frame_size, put, on_data, on_optional,
  at_step, process_data, on_processed, kept_byte, on_kept, read_loop,
}

abbrev pub rx : Step → ℕ → List ℕ → ℕ → ℕ → ℕ → ℕ → ℕ → Receiver
rx step i bytes data_l optional_l crc8h crc8d packet_type = record {
  step = step;
  i = i;
  enocean_data = bytes;
  data_l = data_l;
  optional_l = optional_l;
  crc8h = crc8h;
  crc8d = crc8d;
  packet_type = packet_type;
}

-- The state behind the data.
abbrev pub behind_data : ℕ → Step
behind_data ol = if ol == 0 then at_crc8d else at_optional

module _ (room : ℕ) where
  read_loop-last :
      (c : ℕ) (rest resync : List ℕ) (i : ℕ) (buf : List ℕ) (dl ol ch cd pt : ℕ)
      → i + 1 ≡ dl
      → length buf < max_frame_size
      → read_loop room (c ∷ rest) resync (rx at_data i buf dl ol ch cd pt)
        ≡ read_loop room rest resync
            (rx (behind_data ol) 0 (buf ++ c ∷ []) dl ol ch (proc_crc8 cd c) pt)
  unfolding read_loop kept_byte on_kept on_processed process_data at_step on_data put
  read_loop-last c rest resync i buf dl ol ch cd pt hi hb =
      rw (le→leb dl (i + 1) (omega (arith, hi)), lt→ltb (length buf) max_frame_size hb) refl

  read_loop-inside :
      (c : ℕ) (rest resync : List ℕ) (i : ℕ) (buf : List ℕ) (dl ol ch cd pt : ℕ)
      → i + 1 < dl
      → length buf < max_frame_size
      → read_loop room (c ∷ rest) resync (rx at_data i buf dl ol ch cd pt)
        ≡ read_loop room rest resync
            (rx at_data (i + 1) (buf ++ c ∷ []) dl ol ch (proc_crc8 cd c) pt)
  unfolding read_loop kept_byte on_kept on_processed process_data at_step on_data put
  read_loop-inside c rest resync i buf dl ol ch cd pt hi hb =
      rw (not_end, lt→ltb (length buf) max_frame_size hb) refl
    where
      not_end : leb dl (i + 1) ≡ false
      not_end = ground (arith, hi)

  -- The bytes of the data.
  pub read_loop-payload :
      (c : ℕ) (s rest resync : List ℕ) (i : ℕ) (buf : List ℕ) (dl ol ch cd pt : ℕ)
      → i + length (c ∷ s) ≡ dl
      → length buf + length s < max_frame_size
      → read_loop room (c ∷ (s ++ rest)) resync (rx at_data i buf dl ol ch cd pt)
        ≡ read_loop room rest resync
            (rx (behind_data ol) 0 (buf ++ c ∷ s) dl ol ch (crc8 cd (c ∷ s)) pt)
  unfolding crc8
  read_loop-payload c [] rest resync i buf dl ol ch cd pt hi hb =
      read_loop-last c rest resync i buf dl ol ch cd pt (omega (arith, hi)) (omega (arith, hb))
  read_loop-payload c (d ∷ s) rest resync i buf dl ol ch cd pt hi hb =
      read_loop-inside c (d ∷ (s ++ rest)) resync i buf dl ol ch cd pt (omega (arith, hi))
        (omega (arith, hb))
      ∙ (read_loop-payload d s rest resync (i + 1) (buf ++ c ∷ []) dl ol ch (proc_crc8 cd c) pt
            (omega (arith, hi)) (omega (arith, hb, length-append buf (c ∷ [])))
          ∙ ap
              (λ b.
                read_loop room rest resync
                  (rx (behind_data ol) 0 b dl ol ch (crc8 (proc_crc8 cd c) (d ∷ s)) pt))
              (append_assoc buf (c ∷ []) (d ∷ s)))

  read_loop-optional_byte :
      (c : ℕ) (rest resync : List ℕ) (i : ℕ) (buf : List ℕ) (dl ol ch cd pt : ℕ)
      → length buf < max_frame_size
      → read_loop room (c ∷ rest) resync (rx at_optional i buf dl ol ch cd pt)
        ≡ read_loop room rest resync (
            rx
              (if leb ol (i + 1) then at_crc8d else at_optional)
              (i + 1)
              (buf ++ c ∷ [])
              dl
              ol
              ch
              (proc_crc8 cd c)
              pt)
  unfolding read_loop kept_byte on_kept on_processed process_data at_step on_optional put
  read_loop-optional_byte c rest resync i buf dl ol ch cd pt hb =
      rw (lt→ltb (length buf) max_frame_size hb) refl

  -- The bytes of the optional data.
  pub read_loop-optional :
      (c : ℕ) (s rest resync : List ℕ) (i : ℕ) (buf : List ℕ) (dl ol ch cd pt : ℕ)
      → i + length (c ∷ s) ≡ ol
      → length buf + length s < max_frame_size
      → read_loop room (c ∷ (s ++ rest)) resync (rx at_optional i buf dl ol ch cd pt)
        ≡ read_loop room rest resync
            (rx at_crc8d (i + length (c ∷ s)) (buf ++ c ∷ s) dl ol ch (crc8 cd (c ∷ s)) pt)
  unfolding crc8
  read_loop-optional c [] rest resync i buf dl ol ch cd pt hi hb =
      read_loop-optional_byte c rest resync i buf dl ol ch cd pt (omega (arith, hb))
      ∙ rw (le→leb ol (i + 1) (omega (arith, hi))) refl
  read_loop-optional c (d ∷ s) rest resync i buf dl ol ch cd pt hi hb =
      read_loop-optional_byte c (d ∷ (s ++ rest)) resync i buf dl ol ch cd pt (omega (arith, hb))
      ∙ rw (not_end) (
          read_loop-optional d s rest resync (i + 1) (buf ++ c ∷ []) dl ol ch (proc_crc8 cd c) pt
            (omega (arith, hi)) (omega (arith, hb, length-append buf (c ∷ [])))
          ∙ (ap
                (λ b. read_loop room rest resync (
                  rx at_crc8d (i + 1 + length (d ∷ s)) b dl ol ch (crc8 (proc_crc8 cd c) (d ∷ s))
                    pt))
                (append_assoc buf (c ∷ []) (d ∷ s))
              ∙ ap
                  (λ j.
                    read_loop room rest resync (
                      rx at_crc8d j (buf ++ c ∷ d ∷ s) dl ol ch (crc8 (proc_crc8 cd c) (d ∷ s)) pt))
                  (omega arith)))
    where
      not_end : leb ol (i + 1) ≡ false
      not_end = ground (arith, hi)
