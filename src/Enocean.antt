-- ===== src/Enocean.antt =====
-- src/interfaces/type_003/enocean.c: frames of the ESP3 protocol, their checksums, the state machine
-- that reads them from the serial line and the radio telegrams that are sent.
pub mod Crc
pub mod Receive
pub mod Accepts
pub mod Frames
pub mod Telegrams
pub mod Detects
pub mod Resync
pub mod Commands
pub mod Exchange
pub mod Answers
pub mod Requests
pub mod Address
mod Tests
use Prim.Native.Nat.{bit_xor}
use mea_edomus_lite.Common.{
  ℕ, zero, suc, ◌+◌, ◌*◌, ◌/◌, ◌%◌, Bool, true, false, Option, none, some, List, [], ◌∷◌, ◌++◌,
  ◌==◌, ◌&&◌, ◌||◌, leb, ltb, length, get_elem?, if◌then◌else◌,
}

-- u8CRC8Table
abbrev pub crc8_table : List ℕ
crc8_table =
    0 ∷ 7 ∷ 14 ∷ 9 ∷ 28 ∷ 27 ∷ 18 ∷ 21 ∷ 56 ∷ 63 ∷ 54 ∷ 49 ∷ 36 ∷ 35 ∷ 42 ∷ 45 ∷ 112 ∷ 119 ∷ 126
    ∷ 121 ∷ 108 ∷ 107 ∷ 98 ∷ 101 ∷ 72 ∷ 79 ∷ 70 ∷ 65 ∷ 84 ∷ 83 ∷ 90 ∷ 93 ∷ 224 ∷ 231 ∷ 238 ∷ 233
    ∷ 252 ∷ 251 ∷ 242 ∷ 245 ∷ 216 ∷ 223 ∷ 214 ∷ 209 ∷ 196 ∷ 195 ∷ 202 ∷ 205 ∷ 144 ∷ 151 ∷ 158 ∷ 153
    ∷ 140 ∷ 139 ∷ 130 ∷ 133 ∷ 168 ∷ 175 ∷ 166 ∷ 161 ∷ 180 ∷ 179 ∷ 186 ∷ 189 ∷ 199 ∷ 192 ∷ 201 ∷ 206
    ∷ 219 ∷ 220 ∷ 213 ∷ 210 ∷ 255 ∷ 248 ∷ 241 ∷ 246 ∷ 227 ∷ 228 ∷ 237 ∷ 234 ∷ 183 ∷ 176 ∷ 185 ∷ 190
    ∷ 171 ∷ 172 ∷ 165 ∷ 162 ∷ 143 ∷ 136 ∷ 129 ∷ 134 ∷ 147 ∷ 148 ∷ 157 ∷ 154 ∷ 39 ∷ 32 ∷ 41 ∷ 46 ∷ 59
    ∷ 60 ∷ 53 ∷ 50 ∷ 31 ∷ 24 ∷ 17 ∷ 22 ∷ 3 ∷ 4 ∷ 13 ∷ 10 ∷ 87 ∷ 80 ∷ 89 ∷ 94 ∷ 75 ∷ 76 ∷ 69 ∷ 66
    ∷ 111 ∷ 104 ∷ 97 ∷ 102 ∷ 115 ∷ 116 ∷ 125 ∷ 122 ∷ 137 ∷ 142 ∷ 135 ∷ 128 ∷ 149 ∷ 146 ∷ 155 ∷ 156
    ∷ 177 ∷ 182 ∷ 191 ∷ 184 ∷ 173 ∷ 170 ∷ 163 ∷ 164 ∷ 249 ∷ 254 ∷ 247 ∷ 240 ∷ 229 ∷ 226 ∷ 235 ∷ 236
    ∷ 193 ∷ 198 ∷ 207 ∷ 200 ∷ 221 ∷ 218 ∷ 211 ∷ 212 ∷ 105 ∷ 110 ∷ 103 ∷ 96 ∷ 117 ∷ 114 ∷ 123 ∷ 124
    ∷ 81 ∷ 86 ∷ 95 ∷ 88 ∷ 77 ∷ 74 ∷ 67 ∷ 68 ∷ 25 ∷ 30 ∷ 23 ∷ 16 ∷ 5 ∷ 2 ∷ 11 ∷ 12 ∷ 33 ∷ 38 ∷ 47
    ∷ 40 ∷ 61 ∷ 58 ∷ 51 ∷ 52 ∷ 78 ∷ 73 ∷ 64 ∷ 71 ∷ 82 ∷ 85 ∷ 92 ∷ 91 ∷ 118 ∷ 113 ∷ 120 ∷ 127 ∷ 106
    ∷ 109 ∷ 100 ∷ 99 ∷ 62 ∷ 57 ∷ 48 ∷ 55 ∷ 34 ∷ 37 ∷ 44 ∷ 43 ∷ 6 ∷ 1 ∷ 8 ∷ 15 ∷ 26 ∷ 29 ∷ 20 ∷ 19
    ∷ 174 ∷ 169 ∷ 160 ∷ 167 ∷ 178 ∷ 181 ∷ 188 ∷ 187 ∷ 150 ∷ 145 ∷ 152 ∷ 159 ∷ 138 ∷ 141 ∷ 132 ∷ 131
    ∷ 222 ∷ 217 ∷ 208 ∷ 215 ∷ 194 ∷ 197 ∷ 204 ∷ 203 ∷ 230 ∷ 225 ∷ 232 ∷ 239 ∷ 250 ∷ 253 ∷ 244 ∷ 243
    ∷ []

abbrev pub or_zero : Option ℕ → ℕ
or_zero none = 0
or_zero (some x) = x

-- proc_crc8, of two bytes
unfoldable pub proc_crc8 : ℕ → ℕ → ℕ
proc_crc8 crc c = or_zero (get_elem? crc8_table (bit_xor crc c))

-- proc_crc8 over the bytes of a part of a frame.
unfoldable pub crc8 : ℕ → List ℕ → ℕ
crc8 crc [] = crc
crc8 crc (c ∷ s) = crc8 (proc_crc8 crc c) s

-- The four bytes of a uint32_t, the highest first.
unfoldable pub addr_bytes : ℕ → List ℕ
addr_bytes addr =
    addr / 256 / 256 / 256 % 256 ∷ addr / 256 / 256 % 256 ∷ addr / 256 % 256 ∷ addr % 256 ∷ []

-- enocean_calc_addr
unfoldable pub calc_addr : ℕ → ℕ → ℕ → ℕ → ℕ
calc_addr a b c d = ((a * 256 + b) * 256 + c) * 256 + d

-- A frame: the start, the lengths and the type with their checksum, and the two parts of the data
-- with theirs. The length of the data is that of a telegram, below 256.
unfoldable pub frame : ℕ → List ℕ → List ℕ → List ℕ
unfolding crc8
frame ptype payload optional =
    let header = 0 ∷ length payload ∷ length optional ∷ ptype ∷ [] in
    0x55 ∷ header
    ++ (crc8 0 header ∷ (payload ++ (optional ++ (crc8 0 (payload ++ optional) ∷ []))))

-- ENOCEAN_RADIO_ERP1
abbrev pub radio_erp1 : ℕ
radio_erp1 = 1

-- The lengths of data that a telegram of a kind has.
unfoldable pub telegram_length : ℕ → ℕ → Bool
telegram_length rorg l_data =
    if (rorg == 0xF6) || (rorg == 0xD5)
    then l_data == 1
    else if rorg == 0xA5
    then l_data == 4
    else if rorg == 0xD4
    then l_data == 7
    else if rorg == 0xD2
    then leb 1 l_data && leb l_data 14
    else false

-- The part of the packet behind its header, in front of the optional data.
unfoldable pub radio_data : ℕ → ℕ → List ℕ → ℕ → List ℕ
unfolding addr_bytes
radio_data rorg source payload status = rorg ∷ payload ++ (addr_bytes source ++ status ∷ [])

-- Number of subtelegrams, destination, signal strength and level of security.
unfoldable pub radio_optional : ℕ → List ℕ
unfolding addr_bytes
radio_optional dest = 3 ∷ addr_bytes dest ++ 0xFF ∷ 0 ∷ []

-- _enocean_build_radio_erp1_packet with `*l_packet` bytes of room; none is -1.
unfoldable pub build_radio_erp1_packet : ℕ → ℕ → ℕ → List ℕ → ℕ → ℕ → Option (List ℕ)
unfolding telegram_length frame radio_data radio_optional
build_radio_erp1_packet rorg source dest payload status room =
    if ltb room (20 + length payload)
    then none
    else if telegram_length rorg (length payload)
    then some (frame radio_erp1 (radio_data rorg source payload status) (radio_optional dest))
    else none
