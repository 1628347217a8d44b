-- ===== src/Enocean/Telegrams.antt =====
-- src/interfaces/type_003/enocean.c: radio telegrams are read as they are built.
use mea_edomus_lite.Common.{
  ℕ, ◌+◌, ◌≤◌, ◌≡◌, refl, Bool, true, false, none, some, List, [], ◌∷◌, ◌++◌, ltb, length,
  if◌then◌else◌, arith, length-append, same_some, subst,
}
use mea_edomus_lite.Enocean.{
  crc8, frame, radio_data, radio_optional, telegram_length, build_radio_erp1_packet, radio_erp1,
  addr_bytes,
}
use mea_edomus_lite.Enocean.Receive.{Receiver, received, read_packet}
use mea_edomus_lite.Enocean.Frames.{Noise, read_packet-frame}

-- What a test of two conditions lets through.
guarded :
    (a b : Bool) (built bytes : List ℕ)
    → (if a then none else if b then some built else none) ≡ some bytes
    → (a ≡ false) × ((b ≡ true) × (built ≡ bytes))
guarded true b built bytes h = cc
guarded false true built bytes h = (refl, (refl, same_some h))
guarded false false built bytes h = cc

pub telegram_length-short : (rorg n : ℕ) → telegram_length rorg n ≡ true → n ≤ 14
unfolding telegram_length
telegram_length-short rorg n h = ground arith

pub built_frame :
    (rorg source dest : ℕ) (payload : List ℕ) (status : ℕ) (size : ℕ) (bytes : List ℕ)
    → build_radio_erp1_packet rorg source dest payload status size ≡ some bytes
    → (ltb size (20 + length payload) ≡ false)
      × ((telegram_length rorg (length payload) ≡ true)
          × (frame radio_erp1 (radio_data rorg source payload status) (radio_optional dest)
              ≡ bytes))
unfolding build_radio_erp1_packet
built_frame rorg source dest payload status size bytes h =
    guarded (ltb size (20 + length payload)) (telegram_length rorg (length payload))
      (frame radio_erp1 (radio_data rorg source payload status) (radio_optional dest)) bytes h

pub length-radio_data :
    (rorg source : ℕ) (payload : List ℕ) (status : ℕ)
    → length (radio_data rorg source payload status) ≡ 6 + length payload
unfolding radio_data addr_bytes
length-radio_data rorg source payload status =
    omega (arith, length-append payload (addr_bytes source ++ status ∷ []))

length-frame :
    (ptype : ℕ) (payload optional : List ℕ)
    → length (frame ptype payload optional) ≡ 7 + length payload + length optional
unfolding frame
length-frame ptype payload optional =
    let crc = crc8 0 (payload ++ optional) in
    omega (arith, length-append payload (optional ++ crc ∷ []), length-append optional (crc ∷ []))

length-radio_optional : (dest : ℕ) → length (radio_optional dest) ≡ 7
unfolding radio_optional addr_bytes
length-radio_optional dest = refl

-- A telegram that _enocean_build_radio_erp1_packet builds has 20 bytes more than its data, fits
-- the size that it was given, and is read back by _enocean_read_packet as it is, behind any
-- bytes that are no 0x55 and whatever follows it, in a buffer of at least 34 bytes.
pub read_packet-build_radio_erp1_packet :
    (rorg source dest : ℕ) (payload : List ℕ) (status size : ℕ) (bytes : List ℕ)
    (noise tail : List ℕ) (room : ℕ) (r : Receiver)
    → build_radio_erp1_packet rorg source dest payload status size ≡ some bytes
    → Noise noise
    → 34 ≤ room
    → (length bytes ≡ 20 + length payload)
      × ((length bytes ≤ size)
          × ((r2 : Receiver) × (read_packet room (noise ++ (bytes ++ tail)) r ≡ received bytes r2)))
unfolding radio_data
read_packet-build_radio_erp1_packet rorg source dest payload status size bytes noise tail room r h
      hn hr =
    let built = built_frame rorg source dest payload status size bytes h in
    let short = telegram_length-short rorg (length payload) built.1.0 in
    let telegram = frame radio_erp1 (radio_data rorg source payload status) (radio_optional dest) in
    let size_of : length telegram ≡ 20 + length payload = omega (
      arith,
      length-frame radio_erp1 (radio_data rorg source payload status) (radio_optional dest),
      length-radio_data rorg source payload status,
      length-radio_optional dest,
    ) in
    let fits : 20 + length payload ≤ size = ground (arith, built.0) in
    subst
      (λ b.
        (length b ≡ 20 + length payload)
        × ((length b ≤ size)
            × ((r2 : Receiver) × (read_packet room (noise ++ (b ++ tail)) r ≡ received b r2))))
      built.1.1
      (
        size_of,
        (
          omega (arith, size_of, fits),
          read_packet-frame room noise tail radio_erp1 rorg
              (payload ++ (addr_bytes source ++ status ∷ [])) (radio_optional dest) r hn
              (omega (arith, short, length-radio_data rorg source payload status))
              (omega (arith, length-radio_optional dest)) (omega (arith, size_of, short, hr)),
        ),
      )
