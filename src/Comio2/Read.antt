-- ===== src/Comio2/Read.antt =====
-- src/interfaces/type_001/comio2.c: _comio2_read_frame.
use mea_edomus_lite.Common.{
  ℕ, ◌+◌, ◌%◌, List, [], ◌∷◌, ◌++◌, ◌==◌, leb, ltb, length, take, if◌then◌else◌,
}

-- A frame with the bytes behind it, an error of COMIO2_ERR, or a write behind the 255 bytes of the
-- thread's array.
pub data FrameResult : Type 0 where
  frame_read : List ℕ → List ℕ → FrameResult
  frame_error : ℕ → FrameResult
  frame_overrun : FrameResult

abbrev pub err_timeout : ℕ
err_timeout = 1

abbrev pub err_startframe : ℕ
err_startframe = 6

abbrev pub err_checksum : ℕ
err_checksum = 7

abbrev pub err_stopframe : ℕ
err_stopframe = 11

abbrev pub err_timeout2 : ℕ
err_timeout2 = 14

-- `char frame[255]`
abbrev pub frame_room : ℕ
frame_room = 255

-- `*l_cmd_data=c-4`, of a signed char in a uint16_t
unfoldable pub frame_size : ℕ → ℕ
frame_size c = if ltb c 128 then (c + 65532) % 65536 else (c + 65276) % 65536

-- case 4
unfoldable pub read_end : List ℕ → List ℕ → FrameResult
read_end [] cmd_data = frame_error err_timeout2
read_end (c ∷ s) cmd_data = if c == 0x7D then frame_read cmd_data s else frame_error err_stopframe

-- case 3
unfoldable pub read_checksum : ℕ → List ℕ → List ℕ → FrameResult
unfolding read_end
read_checksum checksum [] cmd_data = frame_error err_timeout2
read_checksum checksum (c ∷ s) cmd_data =
    if (checksum + c) % 65536 % 256 == 0xFF then read_end s cmd_data else frame_error err_checksum

-- Behind `cmd_data[i]=c`.
unfoldable pub on_stored : (ℕ → List ℕ → FrameResult) → ℕ → ℕ → List ℕ → List ℕ → FrameResult
unfolding read_checksum
on_stored k l_cmd_data checksum s cmd_data =
    if leb l_cmd_data (length cmd_data)
    then read_checksum checksum s (take l_cmd_data cmd_data)
    else k checksum cmd_data

-- case 2
unfoldable pub read_data : ℕ → ℕ → List ℕ → List ℕ → FrameResult
unfolding on_stored
read_data l_cmd_data checksum [] cmd_data = frame_error err_timeout2
read_data l_cmd_data checksum (c ∷ s) cmd_data =
    let next =
      on_stored (λ sum bytes. read_data l_cmd_data sum s bytes) l_cmd_data ((checksum + c) % 65536)
        s (cmd_data ++ c ∷ []) in
    if ltb (length cmd_data) frame_room then next else frame_overrun

-- case 1
unfoldable pub read_length : List ℕ → FrameResult
unfolding frame_size read_data
read_length [] = frame_error err_timeout2
read_length (c ∷ s) = read_data (frame_size c) c s []

-- _comio2_read_frame, of the bytes that come before a timeout
unfoldable pub read_frame : List ℕ → FrameResult
unfolding read_length
read_frame [] = frame_error err_timeout
read_frame (c ∷ s) = if c == 0x7B then read_length s else frame_error err_startframe
