-- ===== src/Enocean/Tests.antt =====
-- src/interfaces/type_003/enocean.c: the theorems at a telegram, a request and an answer.
use mea_edomus_lite.Common.{
  zero, suc, ◌≤◌, ltb, ℕ, ◌+◌, ◌≡◌, ◌≢◌, refl, Bool, true, false, some, List, [], ◌∷◌, ◌++◌, arith,
  length, take, drop,
}
use mea_edomus_lite.Enocean.{
  proc_crc8, crc8, frame, build_radio_erp1_packet, telegram_length, radio_data, radio_optional,
  addr_bytes,
}
use mea_edomus_lite.Enocean.Receive.{
  ReadResult, at_start, Receiver, bad_crc8d, received, refused, resync_overrun, read_packet,
}
use mea_edomus_lite.Enocean.Frames.{Noise}
use mea_edomus_lite.Enocean.Telegrams.{read_packet-build_radio_erp1_packet}
use mea_edomus_lite.Enocean.Detects.{read_packet-changed}
use mea_edomus_lite.Enocean.Resync.{read_packet-resync_overrun}
use mea_edomus_lite.Enocean.Requests.{Heard, read_packet-requests}
use mea_edomus_lite.Enocean.Commands.{
  chipid_request, baseid_request, learning_request, sa_learning_request, sa_confirm_request,
  get_chipid, get_baseid, addr_from,
}
use mea_edomus_lite.Enocean.Exchange.{
  Ed, Line, answered, send_packet, get_addr_from_packet, diff_millis,
}
use mea_edomus_lite.Enocean.Answers.{first_response, outcome, send_packet-first_response}
use mea_edomus_lite.Enocean.Address.{
  get_addr_from_packet-build_radio_erp1_packet, get_chipid-first_response,
}

abbrev idle : Receiver
idle = record {
  step = at_start;
  i = 0;
  enocean_data = [];
  data_l = 0;
  optional_l = 0;
  crc8h = 0;
  crc8d = 0;
  packet_type = 0;
}

-- A button that is pressed.
abbrev telegram : List ℕ
telegram =
    0x55 ∷ 0 ∷ 7 ∷ 7 ∷ 1 ∷ 122 ∷ 0xF6 ∷ 0x50 ∷ 1 ∷ 2 ∷ 3 ∷ 4 ∷ 0x30 ∷ 3 ∷ 255 ∷ 255 ∷ 255 ∷ 255
    ∷ 255 ∷ 0 ∷ 208 ∷ []

build_telegram :
    build_radio_erp1_packet 0xF6 0x01020304 0xFFFFFFFF (0x50 ∷ []) 0x30 64 ≡ some telegram
unfolding build_radio_erp1_packet frame crc8 proc_crc8 telegram_length radio_data radio_optional
    addr_bytes
build_telegram = refl

two_bytes-Noise : Noise (0 ∷ 7 ∷ [])
two_bytes-Noise = (refl, (refl, tt))

read_packet-build_radio_erp1_packet_example :
    (length telegram ≡ 20 + length {A = ℕ} (0x50 ∷ []))
    × ((length telegram ≤ 64)
        × ((r2 : Receiver) × (read_packet 65535 ((0 ∷ 7 ∷ []) ++ (telegram ++ 0x55 ∷ [])) idle
              ≡ received telegram r2)))
read_packet-build_radio_erp1_packet_example =
    read_packet-build_radio_erp1_packet 0xF6 0x01020304 0xFFFFFFFF (0x50 ∷ []) 0x30 64 telegram
      (0 ∷ 7 ∷ []) (0x55 ∷ []) 65535 idle build_telegram two_bytes-Noise (omega arith)

get_addr_from_packet-build_radio_erp1_packet_example :
    get_addr_from_packet telegram ≡ some 0x01020304
get_addr_from_packet-build_radio_erp1_packet_example =
    get_addr_from_packet-build_radio_erp1_packet 0xF6 0x01020304 0xFFFFFFFF (0x50 ∷ []) 0x30 64
      telegram (omega arith) build_telegram

short_frame : drop 6 (frame 5 (3 ∷ []) (4 ∷ [])) ≡ (3 ∷ []) ++ 4 ∷ (35 ∷ [])
unfolding frame crc8 proc_crc8
short_frame = refl

read_packet-changed_example :
    (r2 : Receiver) × (read_packet 64
        ([] ++ (take 6 (frame 5 (3 ∷ []) (4 ∷ [])) ++ ((3 ∷ []) ++ 5 ∷ ((35 ∷ []) ++ []))))
        idle
      ≡ refused bad_crc8d r2)
read_packet-changed_example =
    read_packet-changed 64 [] [] 5 3 [] (4 ∷ []) idle (3 ∷ []) (35 ∷ []) 4 5 tt (omega arith)
      (omega arith) short_frame (omega arith, (omega arith, (omega arith, tt))) (omega arith)
      (omega arith)

read_packet-resync_overrun_example :
    read_packet 64 (0x55 ∷ 0 ∷ 1 ∷ 0 ∷ 5 ∷ 0 ∷ 0x55 ∷ 0 ∷ 1 ∷ []) idle ≢ resync_overrun
read_packet-resync_overrun_example =
    read_packet-resync_overrun 64 (0x55 ∷ 0 ∷ 1 ∷ 0 ∷ 5 ∷ 0 ∷ 0x55 ∷ 0 ∷ 1 ∷ []) idle

read_packet-requests_example :
    Heard 65535 (0 ∷ 7 ∷ []) [] idle chipid_request
    × (Heard 65535 (0 ∷ 7 ∷ []) [] idle baseid_request
        × (Heard 65535 (0 ∷ 7 ∷ []) [] idle (learning_request 1)
            × Heard 65535 (0 ∷ 7 ∷ []) [] idle (sa_learning_request 1)))
read_packet-requests_example =
    read_packet-requests 65535 (0 ∷ 7 ∷ []) [] idle 1 two_bytes-Noise (omega arith)

abbrev refused_data : ReadResult → Bool
refused_data (refused bad_crc8d r) = true
refused_data w = false

-- The length of this one says 4 of 8 bytes.
confirm_refused : refused_data (read_packet 64 (sa_confirm_request 250 0) idle) ≡ true
unfolding read_packet proc_crc8 sa_confirm_request
confirm_refused = refl

abbrev zeros : ℕ → List ℕ
zeros zero = []
zeros (suc n) = let s = zeros n in 0 ∷ s

-- The answer to CO_RD_VERSION, behind an event.
abbrev version : List ℕ
version =
    0x55 ∷ 0 ∷ 33 ∷ 0 ∷ 2 ∷ 38 ∷ 0 ∷ 2 ∷ 6 ∷ 3 ∷ 0 ∷ 2 ∷ 6 ∷ 2 ∷ 0 ∷ 1 ∷ 0x83 ∷ 0x52 ∷ 0x11 ∷ 0x45
    ∷ []

abbrev ed : Ed
ed = record {
  in_buffer = record { packet_l = 0; packet = zeros 256; timestamp = 0; err = 0 };
  enocean_callback = true;
  calls = [];
  written = [];
}

abbrev line : Line
line = record {
  wr = true;
  now = 1000;
  heard = (1010, 0x55 ∷ 0 ∷ 1 ∷ 0 ∷ 4 ∷ []) ∷ (1020, version) ∷ [];
  timed_out = true;
}

heard_version : first_response line.heard ≡ some (1020, version)
unfolding first_response
heard_version = refl

send_packet-first_response_example :
    (send_packet line chipid_request (zeros 8) ed).0
    ≡ answered (0x55 ∷ 0 ∷ 33 ∷ 0 ∷ 2 ∷ 38 ∷ 0 ∷ 2 ∷ []) 8
unfolding outcome first_response diff_millis
send_packet-first_response_example =
    send_packet-first_response line chipid_request (zeros 8) ed refl (omega arith)

in_time : ltb (diff_millis 1000 1020) 500 ≡ true
unfolding diff_millis
in_time = refl

get_chipid-first_response_example :
    ((get_chipid line (zeros 40) ed).0 ≡ some (addr_from version 15))
    × ((get_baseid line (zeros 40) ed).0 ≡ some (addr_from version 7))
get_chipid-first_response_example =
    get_chipid-first_response line (zeros 40) ed 1020 version refl refl (omega arith) heard_version
      in_time (omega arith)
