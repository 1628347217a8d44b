-- ===== src/Enocean/Address.antt =====
-- src/interfaces/type_003/enocean.c: the addresses in packets and answers.
use mea_edomus_lite.Common.{
  ℕ, zero, suc, ◌+◌, ◌*◌, ◌/◌, ◌%◌, ◌≤◌, ◌<◌, ◌≡◌, refl, ap, ◌∙◌, true, Option, none, some, List,
  [], ◌∷◌, ◌++◌, ◌==◌, ltb, length, if◌then◌else◌, arith, take, drop, get_elem?, append_assoc,
  lt→ltb, subst,
}
use mea_edomus_lite.Enocean.{
  crc8, calc_addr, addr_bytes, frame, radio_erp1, radio_data, radio_optional,
  build_radio_erp1_packet,
}
use mea_edomus_lite.Enocean.Telegrams.{built_frame, length-radio_data, telegram_length-short}
use mea_edomus_lite.Enocean.Exchange.{
  byte_at, Ed, diff_millis, addr_at, get_addr_from_packet, Sent, answered, not_sent, Line,
  send_packet,
}
use mea_edomus_lite.Enocean.Commands.{
  addr_from, on_answer, get_chipid, get_baseid, chipid_request, baseid_request,
}
use mea_edomus_lite.Enocean.Answers.{first_response, outcome, send_packet-first_response}

calc_addr-addr_bytes :
    (a : ℕ)
    → a < 4294967296
    → calc_addr (a / 256 / 256 / 256 % 256) (a / 256 / 256 % 256) (a / 256 % 256) (a % 256) ≡ a
unfolding calc_addr
calc_addr-addr_bytes a h = omega (arith, h)

get_elem?-behind : (s t : List ℕ) (i : ℕ) → get_elem? (s ++ t) (length s + i) ≡ get_elem? t i
get_elem?-behind [] t i = ap (get_elem? t) (omega arith)
get_elem?-behind (c ∷ s) t i =
    let shifted : suc (length s) + i ≡ suc (length s + i) = omega arith in
    ap (get_elem? (c ∷ (s ++ t))) shifted ∙ get_elem?-behind s t i

-- Four bytes behind others are the address they stand for.
addr_at-behind :
    (s t : List ℕ) (a b c d : ℕ)
    → addr_at (s ++ (a ∷ b ∷ c ∷ d ∷ t)) (length s) ≡ some (calc_addr a b c d)
unfolding addr_at
addr_at-behind s t a b c d =
    let bytes = a ∷ b ∷ c ∷ d ∷ t in
    let first : get_elem? (s ++ bytes) (length s) ≡ some a =
      ap (get_elem? (s ++ bytes)) (omega arith) ∙ get_elem?-behind s bytes 0 in
    rw (first, get_elem?-behind s bytes 1, get_elem?-behind s bytes 2, get_elem?-behind s bytes 3)
      refl

abbrev front : ℕ → ℕ → ℕ → List ℕ → List ℕ
front n m crc s = 0x55 ∷ 0 ∷ n ∷ m ∷ radio_erp1 ∷ crc ∷ s

get_addr_from_packet-front :
    (n m crc : ℕ) (s t : List ℕ) (a b c d : ℕ)
    → n ≡ length s + 5
    → n < 256
    → get_addr_from_packet (front n m crc s ++ (a ∷ b ∷ c ∷ d ∷ t)) ≡ some (calc_addr a b c d)
unfolding get_addr_from_packet
get_addr_from_packet-front n m crc s t a b c d e h =
    let place : 0 * 256 + n + 1 ≡ length (front n m crc s) = omega (arith, e) in
    rw (lt→ltb (0 * 256 + n + 1) 32768 (omega (arith, h)), place)
      (addr_at-behind (front n m crc s) t a b c d)

-- _enocean_get_addr_from_packet finds in a telegram that _enocean_build_radio_erp1_packet has
-- built the source that it was built with, if that is below 2^32.
pub get_addr_from_packet-build_radio_erp1_packet :
    (rorg source dest : ℕ) (payload : List ℕ) (status size : ℕ) (bytes : List ℕ)
    → source < 4294967296
    → build_radio_erp1_packet rorg source dest payload status size ≡ some bytes
    → get_addr_from_packet bytes ≡ some source
unfolding frame radio_data addr_bytes
get_addr_from_packet-build_radio_erp1_packet rorg source dest payload status size bytes hs h =
    let built = built_frame rorg source dest payload status size bytes h in
    let n = length (radio_data rorg source payload status) in
    let optional = radio_optional dest in
    let tail = optional ++ crc8 0 (radio_data rorg source payload status ++ optional) ∷ [] in
    let size_of : n ≡ 6 + length payload = length-radio_data rorg source payload status in
    let short = telegram_length-short rorg (length payload) built.1.0 in
    let crc = crc8 0 (0 ∷ n ∷ length optional ∷ radio_erp1 ∷ []) in
    subst (λ b. get_addr_from_packet b ≡ some source) built.1.1
      (ap (λ b. get_addr_from_packet (front n (length optional) crc (rorg ∷ b)))
          (append_assoc payload (addr_bytes source ++ status ∷ []) tail)
        ∙ (get_addr_from_packet-front n (length optional) crc (rorg ∷ payload) (status ∷ tail)
              (source / 256 / 256 / 256 % 256) (source / 256 / 256 % 256) (source / 256 % 256)
              (source % 256) (omega (arith, size_of)) (omega (arith, size_of, short))
            ∙ ap some (calc_addr-addr_bytes source hs)))

byte_at-copied :
    (n i : ℕ) (p t : List ℕ) → i < n → i < length p → byte_at (take n p ++ t) i ≡ byte_at p i
byte_at-copied zero i p t h1 h2 = absurd (omega (arith, h1))
byte_at-copied (suc n) i [] t h1 h2 = absurd (omega (arith, h2))
byte_at-copied (suc n) zero (c ∷ p) t h1 h2 = refl
byte_at-copied (suc n) (suc i) (c ∷ p) t h1 h2 =
    byte_at-copied n i p t (omega (arith, h1)) (omega (arith, h2))

addr_from-copied :
    (n i : ℕ) (p t : List ℕ)
    → i + 3 < n
    → i + 3 < length p
    → addr_from (take n p ++ t) i ≡ addr_from p i
unfolding addr_from
addr_from-copied n i p t h1 h2 =
    rw
      (
        byte_at-copied n i p t (omega (arith, h1)) (omega (arith, h2)),
        byte_at-copied n (i + 1) p t (omega (arith, h1)) (omega (arith, h2)),
        byte_at-copied n (i + 2) p t (omega (arith, h1)) (omega (arith, h2)),
        byte_at-copied n (i + 3) p t h1 h2,
      )
      refl

on_answer-answered :
    (f : List ℕ → Option ℕ) (w : Sent × Ed) (response : List ℕ) (l : ℕ)
    → w.0 ≡ answered response l
    → (on_answer f w).0 ≡ f response
unfolding on_answer
on_answer-answered f (answered r k, ed) response l h = ap f (ap response_of h)
  where
    response_of : Sent → List ℕ
    response_of (answered s n) = s
    response_of (not_sent e) = r
on_answer-answered f (not_sent e, ed) response l h = cc

-- An answer in time is what the function of its bytes gets.
answered_with :
    (f : List ℕ → Option ℕ) (line : Line) (packet response : List ℕ) (ed : Ed) (now : ℕ)
    (p : List ℕ)
    → line.wr ≡ true
    → length response ≤ length ed.in_buffer.packet
    → first_response line.heard ≡ some (now, p)
    → ltb (diff_millis line.now now) 500 ≡ true
    → (on_answer f (send_packet line packet response ed)).0
      ≡ f (take (length response) p ++ drop (length p) response)
unfolding outcome
answered_with f line packet response ed now p hw hl hf ht =
    on_answer-answered f (send_packet line packet response ed)
      (take (length response) p ++ drop (length p) response) (length (take (length response) p))
      (send_packet-first_response line packet response ed hw hl
        ∙ (ap (outcome line.now line.timed_out response) hf ∙ rw (ht) refl))

-- Where the request is written and the first response is heard within 500 ms and has at least 19
-- bytes, enocean_get_chipid gives the address that its bytes 15 to 18 make, and
-- enocean_get_baseid that of its bytes 7 to 10 if byte 6 is 0, and fails if not; the caller's
-- array has 40 bytes and the line's buffer no less.
pub get_chipid-first_response :
    (line : Line) (response : List ℕ) (ed : Ed) (now : ℕ) (p : List ℕ)
    → line.wr ≡ true
    → length response ≡ 40
    → 40 ≤ length ed.in_buffer.packet
    → first_response line.heard ≡ some (now, p)
    → ltb (diff_millis line.now now) 500 ≡ true
    → 19 ≤ length p
    → ((get_chipid line response ed).0 ≡ some (addr_from p 15))
      × ((get_baseid line response ed).0
          ≡ (if byte_at p 6 == 0 then some (addr_from p 7) else none))
unfolding get_chipid get_baseid
get_chipid-first_response line response ed now p hw hl hb hf ht hp =
    let rest = drop (length p) response in
    (
      answered_with (λ r. some (addr_from r 15)) line chipid_request response ed now p hw
            (omega (arith, hl, hb)) hf ht
          ∙ ap some (
              addr_from-copied (length response) 15 p rest (omega (arith, hl)) (omega (arith, hp))),
      answered_with (λ r. if byte_at r 6 == 0 then some (addr_from r 7) else none) line
            baseid_request response ed now p hw (omega (arith, hl, hb)) hf ht
          ∙ (ap (λ a. if byte_at (take (length response) p ++ rest) 6 == 0 then some a else none)
                (addr_from-copied (length response) 7 p rest (omega (arith, hl))
                  (omega (arith, hp)))
              ∙ ap (λ b. if b == 0 then some (addr_from p 7) else none)
                  (byte_at-copied (length response) 6 p rest (omega (arith, hl))
                    (omega (arith, hp)))),
    )
