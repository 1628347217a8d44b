-- ===== src/Enocean/Commands.antt =====
-- src/interfaces/type_003/enocean.c: the requests to the EnOcean module and what their functions make
-- of the answers.
use mea_edomus_lite.Common.{
  ℕ, ◌+◌, ◌/◌, ◌%◌, Option, none, some, List, [], ◌∷◌, ◌++◌, ◌==◌, if◌then◌else◌,
}
use mea_edomus_lite.Enocean.{crc8, calc_addr, build_radio_erp1_packet}
use mea_edomus_lite.Enocean.Exchange.{byte_at, Ed, Sent, answered, not_sent, Line, send_packet}

abbrev pub common_command : ℕ
common_command = 5

abbrev pub smart_ack_command : ℕ
smart_ack_command = 6

-- The bytes of a header and its checksum.
unfoldable pub header_bytes : ℕ → ℕ → ℕ → List ℕ
unfolding crc8
header_bytes n m ptype = 0x55 ∷ 0 ∷ n ∷ m ∷ ptype ∷ crc8 0 (0 ∷ n ∷ m ∷ ptype ∷ []) ∷ []

-- CO_RD_VERSION
unfoldable pub chipid_request : List ℕ
unfolding header_bytes crc8
chipid_request = header_bytes 1 0 common_command ++ 3 ∷ crc8 0 (3 ∷ []) ∷ []

-- CO_RD_IDBASE
unfoldable pub baseid_request : List ℕ
unfolding header_bytes crc8
baseid_request = header_bytes 1 0 common_command ++ 8 ∷ crc8 0 (8 ∷ []) ∷ []

abbrev pub enabled : ℕ → ℕ
enabled onoff = if onoff == 0 then 0 else 1

-- CO_WR_LEARNMODE
unfoldable pub learning_request : ℕ → List ℕ
unfolding header_bytes crc8
learning_request onoff =
    let bytes = 23 ∷ enabled onoff ∷ 0 ∷ 0 ∷ 0 ∷ 0 ∷ 0xFF ∷ [] in
    header_bytes 6 1 common_command ++ (bytes ++ crc8 0 bytes ∷ [])

-- SA_WR_LEARNMODE
unfoldable pub sa_learning_request : ℕ → List ℕ
unfolding header_bytes crc8
sa_learning_request onoff =
    let bytes = 1 ∷ enabled onoff ∷ 0 ∷ 0 ∷ 0 ∷ 0 ∷ 0 ∷ [] in
    header_bytes 7 0 smart_ack_command ++ (bytes ++ crc8 0 bytes ∷ [])

-- The answer to a learn request: its length says 4, and its checksum begins with 23 for the 0.
unfoldable pub sa_confirm_request : ℕ → ℕ → List ℕ
unfolding header_bytes crc8
sa_confirm_request response_time confirm =
    let bytes =
      response_time / 256 % 256 ∷ response_time % 256 ∷ confirm % 256 ∷ 0 ∷ 0 ∷ 0 ∷ 0 ∷ [] in
    header_bytes 4 0 2 ++ (0 ∷ bytes ++ crc8 0 (23 ∷ bytes) ∷ [])

-- What a function of an answer's bytes leaves; none is -1.
unfoldable pub on_answer : (List ℕ → Option ℕ) → Sent × Ed → Option ℕ × Ed
on_answer f (answered response l, ed) = (f response, ed)
on_answer f (not_sent nerr, ed) = (none, ed)

unfoldable pub addr_from : List ℕ → ℕ → ℕ
unfolding calc_addr
addr_from r i = calc_addr (byte_at r i) (byte_at r (i + 1)) (byte_at r (i + 2)) (byte_at r (i + 3))

-- enocean_get_chipid; `response` is the array on its stack.
unfoldable pub get_chipid : Line → List ℕ → Ed → Option ℕ × Ed
unfolding on_answer send_packet chipid_request addr_from
get_chipid line response ed =
    on_answer (λ r. some (addr_from r 15)) (send_packet line chipid_request response ed)

-- enocean_get_baseid
unfoldable pub get_baseid : Line → List ℕ → Ed → Option ℕ × Ed
unfolding on_answer send_packet baseid_request addr_from
get_baseid line response ed =
    on_answer (λ r. if byte_at r 6 == 0 then some (addr_from r 7) else none)
      (send_packet line baseid_request response ed)

-- enocean_learning_onoff; some 0 is a success.
unfoldable pub learning_onoff : Line → ℕ → List ℕ → Ed → Option ℕ × Ed
unfolding on_answer send_packet learning_request
learning_onoff line onoff response ed =
    on_answer (λ r. some 0) (send_packet line (learning_request onoff) response ed)

-- enocean_sa_learning_onoff
unfoldable pub sa_learning_onoff : Line → ℕ → List ℕ → Ed → Option ℕ × Ed
unfolding on_answer send_packet sa_learning_request
sa_learning_onoff line onoff response ed =
    on_answer (λ r. some (byte_at r 6)) (send_packet line (sa_learning_request onoff) response ed)

-- enocean_sa_confirm_learn_response
unfoldable pub sa_confirm_learn_response : Line → ℕ → ℕ → List ℕ → Ed → Option ℕ × Ed
unfolding on_answer send_packet sa_confirm_request
sa_confirm_learn_response line response_time confirm response ed =
    on_answer (λ r. some 0)
      (send_packet line (sa_confirm_request response_time confirm) response ed)

unfoldable pub send_built : Line → List ℕ → Ed → Option (List ℕ) → Option ℕ × Ed
unfolding on_answer send_packet
send_built line response ed none = (none, ed)
send_built line response ed (some packet) =
    on_answer (λ r. some (byte_at r 6)) (send_packet line packet response ed)

-- enocean_send_radio_erp1_packet; its response is eight bytes, all 0.
unfoldable pub send_radio_erp1_packet : Line → ℕ → ℕ → ℕ → ℕ → List ℕ → ℕ → Ed → Option ℕ × Ed
unfolding send_built build_radio_erp1_packet
send_radio_erp1_packet line rorg source sub_id dest payload status ed =
    send_built line (0 ∷ 0 ∷ 0 ∷ 0 ∷ 0 ∷ 0 ∷ 0 ∷ 0 ∷ []) ed
      (build_radio_erp1_packet rorg ((source + sub_id) % 4294967296) dest payload status 64)
