-- ===== src/Comio2/Frames.antt =====
-- src/interfaces/type_001/comio2.c: the frames of the Arduino.
use mea_edomus_lite.Common.{
  ℕ, zero, suc, ◌+◌, ◌-◌, ◌%◌, ◌≤◌, ◌<◌, ◌≡◌, refl, ap, ◌∙◌, true, false, List, [], ◌∷◌, ◌++◌, ◌==◌,
  leb, length, take, arith, append_assoc, length-append, lt→ltb, le→leb, ==_refl,
}
use mea_edomus_lite.Comio2.{byte_sum}
use mea_edomus_lite.Comio2.Read.{
  frame_read, frame_room, frame_size, read_end, read_checksum, on_stored, read_data, read_length,
  read_frame,
}

-- The checksum that makes the sum 0xFF.
unfoldable pub answer_checksum : List ℕ → ℕ
unfolding byte_sum
answer_checksum bytes = 255 - (4 + length bytes + byte_sum bytes) % 256

-- A frame as the comment of _comio2_read_frame describes it.
unfoldable pub answer_frame : List ℕ → List ℕ
unfolding answer_checksum
answer_frame bytes = 0x7B ∷ (4 + length bytes) ∷ (bytes ++ answer_checksum bytes ∷ 0x7D ∷ [])

take_whole : (s : List ℕ) (n : ℕ) → n ≡ length s → take n s ≡ s
take_whole [] zero h = refl
take_whole [] (suc n) h = refl
take_whole (c ∷ s) zero h = absurd (omega (arith, h))
take_whole (c ∷ s) (suc n) h = ap (λ t. c ∷ t) (take_whole s n (omega (arith, h)))

-- The bytes of a frame, up to its checksum.
read_data-bytes :
    (s : List ℕ) (size sum c : ℕ) (rest buf : List ℕ)
    → size ≡ length buf + length (c ∷ s)
    → size < 255
    → (total : ℕ) × ((read_data size sum ((c ∷ s) ++ rest) buf
          ≡ read_checksum total rest (buf ++ c ∷ s))
        × (total % 256 ≡ (sum + byte_sum (c ∷ s)) % 256))
unfolding read_data on_stored byte_sum
read_data-bytes [] size sum c rest buf h hs =
    let whole : size ≡ length (buf ++ c ∷ []) = omega (arith, h, length-append buf (c ∷ [])) in
    (
      (sum + c) % 65536,
      (
        rw
            (
              lt→ltb (length buf) frame_room (omega (arith, h, hs)),
              le→leb size (length (buf ++ c ∷ [])) (omega (arith, whole)),
              take_whole (buf ++ c ∷ []) size whole,
            )
            refl,
        omega arith,
      ),
    )
read_data-bytes (d ∷ s) size sum c rest buf h hs =
    let more_to_come : leb size (length (buf ++ c ∷ [])) ≡ false =
      not_whole size (length (buf ++ c ∷ [])) (omega (arith, h, length-append buf (c ∷ []))) in
    let next =
      read_data-bytes s size ((sum + c) % 65536) d rest (buf ++ c ∷ [])
        (omega (arith, h, length-append buf (c ∷ []))) hs in
    (
      next.0,
      (
        rw (lt→ltb (length buf) frame_room (omega (arith, h, hs)), more_to_come)
            (next.1.0 ∙ ap (read_checksum next.0 rest) (append_assoc buf (c ∷ []) (d ∷ s))),
        omega (arith, next.1.1),
      ),
    )
  where
    not_whole : (a b : ℕ) → b < a → leb a b ≡ false
    not_whole a b e = ground (arith, e)

-- The length of a frame of up to 123 bytes.
frame_size-bytes : (n : ℕ) → n ≤ 123 → frame_size (4 + n) ≡ n
unfolding frame_size
frame_size-bytes n h = rw (lt→ltb (4 + n) 128 (omega (arith, h))) (omega (arith, h))

read_frame-checksum :
    (c : ℕ) (s rest : List ℕ)
    → length (c ∷ s) ≤ 123
    → (total : ℕ) × ((read_frame (0x7B ∷ (4 + length (c ∷ s)) ∷ ((c ∷ s) ++ rest))
          ≡ read_checksum total rest (c ∷ s))
        × (total % 256 ≡ (4 + length (c ∷ s) + byte_sum (c ∷ s)) % 256))
unfolding read_frame read_length
read_frame-checksum c s rest h =
    let body =
      read_data-bytes s (length (c ∷ s)) (4 + length (c ∷ s)) c rest [] (omega arith)
        (omega (arith, h)) in
    (
      body.0,
      (
        ap (λ n. read_data n (4 + length (c ∷ s)) ((c ∷ s) ++ rest) [])
              (frame_size-bytes (length (c ∷ s)) h)
            ∙ body.1.0,
        body.1.1,
      ),
    )

-- _comio2_read_frame gives back the bytes of a frame that is made as its comment says, if they
-- are at least one and at most 123, and leaves what follows.
pub read_frame-answer :
    (c : ℕ) (s tail : List ℕ)
    → length (c ∷ s) ≤ 123
    → read_frame (answer_frame (c ∷ s) ++ tail) ≡ frame_read (c ∷ s) tail
unfolding read_checksum read_end answer_checksum answer_frame byte_sum
read_frame-answer c s tail h =
    let bytes = c ∷ s in
    let body = read_frame-checksum c s (answer_checksum bytes ∷ 0x7D ∷ tail) h in
    let good : ((body.0 + answer_checksum bytes) % 65536 % 256 == 255) ≡ true =
      sum_matches body.0 (4 + length bytes + byte_sum bytes) body.1.1 in
    ap (λ t. read_frame (0x7B ∷ (4 + length bytes) ∷ t))
      (append_assoc bytes (answer_checksum bytes ∷ 0x7D ∷ []) tail)
    ∙ (body.1.0 ∙ rw (good) refl)
  where
    sum_matches :
        (a b : ℕ) → a % 256 ≡ b % 256 → ((a + (255 - b % 256)) % 65536 % 256 == 255) ≡ true
    sum_matches a b e = ap (λ n. n == 255) (same a b e) ∙ ==_refl 255
      where
        same : (x y : ℕ) → x % 256 ≡ y % 256 → (x + (255 - y % 256)) % 65536 % 256 ≡ 255
        same x y d = omega (arith, d)
