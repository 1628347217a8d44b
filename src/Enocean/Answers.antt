-- ===== src/Enocean/Answers.antt =====
-- src/interfaces/type_003/enocean.c: the answer to a request is the first response that is heard.
use mea_edomus_lite.Common.{
  ℕ, zero, suc, ◌≤◌, ◌≡◌, refl, ap, sym, ◌∙◌, Bool, true, false, Option, none, some, List, [], ◌∷◌,
  ◌++◌, ◌==◌, leb, ltb, length, if◌then◌else◌, arith, take, drop, Bool-cases, inl, inr, subst,
  length-take_le,
}
use mea_edomus_lite.Enocean.{radio_erp1}
use mea_edomus_lite.Enocean.Exchange.{
  Ed, byte_at, enocean_response, enocean_event, err_timeout, err_sys, diff_millis, copy_into,
  call_back, on_response, on_packet, get_addr_from_packet, woken_or, listen, Sent, answered,
  not_sent, prepared, on_waited, Line, send_packet,
}

-- The first packet of the type of a response, with its time.
unfoldable pub first_response : List (ℕ × List ℕ) → Option (ℕ × List ℕ)
first_response [] = none
first_response (x ∷ heard) =
    let rest = first_response heard in if byte_at x.1 4 == enocean_response then some x else rest

-- The caller's array with the packet in front; what does not fit is left out.
unfoldable pub outcome : ℕ → Bool → List ℕ → Option (ℕ × List ℕ) → Sent
outcome sent_at timed_out response none = not_sent (if timed_out then err_timeout else err_sys)
outcome sent_at timed_out response (some (now, p)) =
    if ltb (diff_millis sent_at now) 500
    then answered (take (length response) p ++ drop (length p) response)
        (length (take (length response) p))
    else not_sent err_timeout

copied :
    (response buf p : List ℕ)
    → length response ≤ length buf
    → copy_into response (take (length p) (copy_into buf p))
      ≡ take (length response) p ++ drop (length p) response
unfolding copy_into
copied [] buf [] h = refl
copied [] buf (c ∷ p) h = refl
copied (d ∷ response) [] p h = absurd (omega (arith, h))
copied (d ∷ response) (b ∷ buf) [] h = refl
copied (d ∷ response) (b ∷ buf) (c ∷ p) h =
    ap (λ s. c ∷ s) (copied response buf p (omega (arith, h)))

length-take_all : (n : ℕ) (p : List ℕ) → length p ≤ n → length (take n p) ≡ length p
length-take_all zero [] h = refl
length-take_all zero (c ∷ p) h = absurd (omega (arith, h))
length-take_all (suc n) [] h = refl
length-take_all (suc n) (c ∷ p) h = ap suc (length-take_all n p (omega (arith, h)))

length-copied :
    (n : ℕ) (p : List ℕ) → (if leb n (length p) then n else length p) ≡ length (take n p)
length-copied n p = chosen (leb n (length p)) refl
  where
    chosen : (b : Bool) → leb n (length p) ≡ b → (if b then n else length p) ≡ length (take n p)
    chosen true h = sym (length-take_le n p (ground (arith, h)))
    chosen false h = sym (length-take_all n p (ground (arith, h)))

on_waited-response :
    (timed_out : Bool) (response : List ℕ) (now : ℕ) (p : List ℕ) (ed : Ed)
    → length response ≤ length ed.in_buffer.packet
    → (on_waited timed_out response (true, on_response now p ed)).0
      ≡ outcome ed.in_buffer.timestamp timed_out response (some (now, p))
unfolding on_waited on_response outcome
on_waited-response timed_out response now p ed h =
    elim (Bool-cases (ltb (diff_millis ed.in_buffer.timestamp now) 500)) [
      | inl e ↦
          rw (e, copied response ed.in_buffer.packet p h, length-copied (length response) p) refl
      | inr e ↦ rw (e) refl
    ]

call_back-in_buffer :
    (p : List ℕ) (addr : Option ℕ) (ed : Ed) → (call_back p addr ed).in_buffer ≡ ed.in_buffer
unfolding call_back
call_back-in_buffer p addr ed = chosen ed.enocean_callback
  where
    chosen :
        (b : Bool)
        → (if b
            then record ed { calls = ed.calls ++ record { called_with = p; addr = addr } ∷ [] }
            else ed).in_buffer
          ≡ ed.in_buffer
    chosen true = refl
    chosen false = refl

on_packet-other :
    (now : ℕ) (p : List ℕ) (ed : Ed)
    → (byte_at p 4 == enocean_response) ≡ false
    → (ed2 : Ed) × ((on_packet now p ed ≡ (false, ed2)) × (ed2.in_buffer ≡ ed.in_buffer))
unfolding on_packet
on_packet-other now p ed h = elim (Bool-cases (byte_at p 4 == radio_erp1)) [
  | inl e ↦
      let addr = get_addr_from_packet p in
      (call_back p addr ed, (rw (e) refl, call_back-in_buffer p addr ed))
  | inr e ↦ elim (Bool-cases (byte_at p 4 == enocean_event)) [
    | inl e2 ↦ (call_back p (some 0) ed, (rw (e, e2) refl, call_back-in_buffer p (some 0) ed))
    | inr e2 ↦ (ed, (rw (e, e2, h) refl, refl))
  ]
]

on_packet-response :
    (now : ℕ) (p : List ℕ) (ed : Ed)
    → (byte_at p 4 == enocean_response) ≡ true
    → on_packet now p ed ≡ (true, on_response now p ed)
unfolding on_packet
on_packet-response now p ed h = rw (not_radio (byte_at p 4) h, not_event (byte_at p 4) h, h) refl
  where
    not_radio : (t : ℕ) → (t == enocean_response) ≡ true → (t == radio_erp1) ≡ false
    not_radio t e = ground (arith, e)

    not_event : (t : ℕ) → (t == enocean_response) ≡ true → (t == enocean_event) ≡ false
    not_event t e = ground (arith, e)

on_waited-listen :
    (heard : List (ℕ × List ℕ)) (timed_out : Bool) (response : List ℕ) (ed : Ed)
    → length response ≤ length ed.in_buffer.packet
    → (on_waited timed_out response (listen heard ed)).0
      ≡ outcome ed.in_buffer.timestamp timed_out response (first_response heard)
unfolding listen first_response woken_or on_waited outcome
on_waited-listen [] timed_out response ed h = refl
on_waited-listen ((now, p) ∷ heard) timed_out response ed h =
    elim (Bool-cases (byte_at p 4 == enocean_response)) [
      | inl e ↦
          ap (λ w. (on_waited timed_out response (woken_or (listen heard) w)).0)
            (on_packet-response now p ed e)
          ∙ (on_waited-response timed_out response now p ed h
              ∙ ap
                  (λ b.
                    outcome ed.in_buffer.timestamp timed_out response
                      (if b then some (now, p) else first_response heard))
                  (sym e))
      | inr e ↦
          let other = on_packet-other now p ed e in
          ap (λ w. (on_waited timed_out response (woken_or (listen heard) w)).0) other.1.0
          ∙ (on_waited-listen heard timed_out response other.0
                (subst (λ b. length response ≤ length b.packet) (sym other.1.1) h)
              ∙ (ap (λ b. outcome b.timestamp timed_out response (first_response heard)) other.1.1
                  ∙ ap
                      (λ b.
                        outcome ed.in_buffer.timestamp timed_out response
                          (if b then some (now, p) else first_response heard))
                      (sym e)))
    ]

-- enocean_send_packet, where the request is written and the caller's array is no longer than the
-- buffer of the line, answers with the first response that is heard, put in front of the
-- caller's array as far as it fits, if that comes within 500 ms, fails with a timeout if it
-- comes later, and fails as the wait does if there is none; other packets do not matter.
pub send_packet-first_response :
    (line : Line) (packet response : List ℕ) (ed : Ed)
    → line.wr ≡ true
    → length response ≤ length ed.in_buffer.packet
    → (send_packet line packet response ed).0
      ≡ outcome line.now line.timed_out response (first_response line.heard)
unfolding send_packet prepared
send_packet-first_response line packet response ed hw h =
    let ed2 = record ed {
      in_buffer = prepared line.now ed.in_buffer;
      written = ed.written ++ packet ∷ [];
    } in
    rw (hw) (on_waited-listen line.heard line.timed_out response ed2 h)
