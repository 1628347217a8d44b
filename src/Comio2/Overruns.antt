-- ===== src/Comio2/Overruns.antt =====
-- src/interfaces/type_001/comio2.c: a length byte that is too small, or that is negative as a char.
use mea_edomus_lite.Common.{
  ℕ, ◌+◌, ◌%◌, ◌≤◌, ◌<◌, ◌≡◌, refl, Bool, true, false, List, [], ◌∷◌, ◌++◌, if◌then◌else◌, ltb, leb,
  length, arith, length-append, lt→ltb, ◌⊎◌, ltb→lt, Bool-cases, inl, inr,
}
use mea_edomus_lite.Comio2.Read.{
  frame_overrun, frame_room, frame_size, on_stored, read_data, read_length, read_frame,
}

read_data-overrun :
    (s : List ℕ) (size sum : ℕ) (buf : List ℕ)
    → 255 < size
    → length buf ≤ 255
    → 256 ≤ length buf + length s
    → read_data size sum s buf ≡ frame_overrun
unfolding read_data on_stored
read_data-overrun [] size sum buf hs hb h = absurd (omega (arith, hb, h))
read_data-overrun (c ∷ s) size sum buf hs hb h =
    let longer : length (buf ++ c ∷ []) ≡ length buf + 1 = length-append buf (c ∷ []) in
    elim (Bool-cases (ltb (length buf) frame_room)) [
      | inl e ↦
          let short : length buf < 255 = ltb→lt (length buf) frame_room e in
          rw (e, not_whole size (length (buf ++ c ∷ [])) (omega (arith, hs, longer, short)))
            (read_data-overrun s size ((sum + c) % 65536) (buf ++ c ∷ []) hs
              (omega (arith, longer, short)) (omega (arith, longer, h)))
      | inr e ↦ rw (e) refl
    ]
  where
    not_whole : (a b : ℕ) → b < a → leb a b ≡ false
    not_whole a b e = ground (arith, e)

frame_size-large : (c : ℕ) → c < 256 → (c < 4) ⊎ (128 ≤ c) → 255 < frame_size c
unfolding frame_size
frame_size-large c h (inl small) = rw (lt→ltb c 128 (omega (arith, small))) (omega (arith, small))
frame_size-large c h (inr negative) = chosen (ltb c 128) refl
  where
    chosen :
        (b : Bool) → ltb c 128 ≡ b → 255 < (if b then (c + 65532) % 65536 else (c + 65276) % 65536)
    chosen true e = ground (arith, e, negative)
    chosen false e = omega (arith, h, negative)

-- On a frame whose length byte is below 4, or is 128 or more, _comio2_read_frame writes behind
-- the array of 255 bytes if at least 256 bytes follow.
pub read_frame-overrun :
    (c : ℕ) (s : List ℕ)
    → c < 256
    → (c < 4) ⊎ (128 ≤ c)
    → 256 ≤ length s
    → read_frame (0x7B ∷ c ∷ s) ≡ frame_overrun
unfolding read_frame read_length
read_frame-overrun c s h hc hs =
    read_data-overrun s (frame_size c) c [] (frame_size-large c h hc) (omega arith)
      (omega (arith, hs))
