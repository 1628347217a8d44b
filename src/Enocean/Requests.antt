-- ===== src/Enocean/Requests.antt =====
-- src/interfaces/type_003/enocean.c: the requests are frames.
use mea_edomus_lite.Common.{ℕ, ◌≤◌, ◌≡◌, List, [], ◌∷◌, ◌++◌, arith}
use mea_edomus_lite.Enocean.{frame}
use mea_edomus_lite.Enocean.Receive.{Receiver, received, read_packet}
use mea_edomus_lite.Enocean.Frames.{Noise, read_packet-frame}
use mea_edomus_lite.Enocean.Commands.{
  header_bytes, chipid_request, baseid_request, learning_request, sa_learning_request,
  common_command, smart_ack_command, enabled,
}

-- A request is read as it is sent, whatever stands around it.
abbrev pub Heard : ℕ → List ℕ → List ℕ → Receiver → List ℕ → Type 0
Heard room noise tail r request =
    (r2 : Receiver) × (read_packet room (noise ++ (request ++ tail)) r ≡ received request r2)

-- The requests of enocean_get_chipid, enocean_get_baseid, enocean_learning_onoff and
-- enocean_sa_learning_onoff are frames: _enocean_read_packet reads each of them as it is sent,
-- behind any bytes that are no 0x55 and whatever follows, in a buffer of at least 14 bytes.
pub read_packet-requests :
    (room : ℕ) (noise tail : List ℕ) (r : Receiver) (onoff : ℕ)
    → Noise noise
    → 14 ≤ room
    → Heard room noise tail r chipid_request
      × (Heard room noise tail r baseid_request
          × (Heard room noise tail r (learning_request onoff)
              × Heard room noise tail r (sa_learning_request onoff)))
unfolding chipid_request baseid_request learning_request sa_learning_request header_bytes frame
read_packet-requests room noise tail r onoff hn hr = (
  read_packet-frame room noise tail common_command 3 [] [] r hn (omega arith) (omega arith)
      (omega (arith, hr)),
  (
    read_packet-frame room noise tail common_command 8 [] [] r hn (omega arith) (omega arith)
        (omega (arith, hr)),
    (
      read_packet-frame room noise tail common_command 23 (enabled onoff ∷ 0 ∷ 0 ∷ 0 ∷ 0 ∷ [])
          (0xFF ∷ []) r hn (omega arith) (omega arith) (omega (arith, hr)),
      read_packet-frame room noise tail smart_ack_command 1 (enabled onoff ∷ 0 ∷ 0 ∷ 0 ∷ 0 ∷ 0 ∷ [])
          [] r hn (omega arith) (omega arith) (omega (arith, hr)),
    ),
  ),
)
