-- ===== src/Enocean/Crc.antt =====
-- The checksum of src/interfaces/type_003/enocean.c tells bytes apart.
use Prim.Native.Nat.{bit_xor}
use mea_edomus_lite.Common.{
  ℕ, zero, suc, ◌<◌, ◌≡◌, refl, ap, sym, ◌∙◌, Bool, true, false, if◌then◌else◌, List, [], ◌∷◌, ◌++◌,
  ◌==◌, ltb, arith, get_elem?, ltb→lt, All,
}
use mea_edomus_lite.Enocean.{crc8_table, or_zero, proc_crc8, crc8}

-- The place of each byte in crc8_table.
abbrev inverse_table : List ℕ
inverse_table =
    0 ∷ 217 ∷ 181 ∷ 108 ∷ 109 ∷ 180 ∷ 216 ∷ 1 ∷ 218 ∷ 3 ∷ 111 ∷ 182 ∷ 183 ∷ 110 ∷ 2 ∷ 219 ∷ 179
    ∷ 106 ∷ 6 ∷ 223 ∷ 222 ∷ 7 ∷ 107 ∷ 178 ∷ 105 ∷ 176 ∷ 220 ∷ 5 ∷ 4 ∷ 221 ∷ 177 ∷ 104 ∷ 97 ∷ 184
    ∷ 212 ∷ 13 ∷ 12 ∷ 213 ∷ 185 ∷ 96 ∷ 187 ∷ 98 ∷ 14 ∷ 215 ∷ 214 ∷ 15 ∷ 99 ∷ 186 ∷ 210 ∷ 11 ∷ 103
    ∷ 190 ∷ 191 ∷ 102 ∷ 10 ∷ 211 ∷ 8 ∷ 209 ∷ 189 ∷ 100 ∷ 101 ∷ 188 ∷ 208 ∷ 9 ∷ 194 ∷ 27 ∷ 119 ∷ 174
    ∷ 175 ∷ 118 ∷ 26 ∷ 195 ∷ 24 ∷ 193 ∷ 173 ∷ 116 ∷ 117 ∷ 172 ∷ 192 ∷ 25 ∷ 113 ∷ 168 ∷ 196 ∷ 29 ∷ 28
    ∷ 197 ∷ 169 ∷ 112 ∷ 171 ∷ 114 ∷ 30 ∷ 199 ∷ 198 ∷ 31 ∷ 115 ∷ 170 ∷ 163 ∷ 122 ∷ 22 ∷ 207 ∷ 206
    ∷ 23 ∷ 123 ∷ 162 ∷ 121 ∷ 160 ∷ 204 ∷ 21 ∷ 20 ∷ 205 ∷ 161 ∷ 120 ∷ 16 ∷ 201 ∷ 165 ∷ 124 ∷ 125
    ∷ 164 ∷ 200 ∷ 17 ∷ 202 ∷ 19 ∷ 127 ∷ 166 ∷ 167 ∷ 126 ∷ 18 ∷ 203 ∷ 131 ∷ 90 ∷ 54 ∷ 239 ∷ 238 ∷ 55
    ∷ 91 ∷ 130 ∷ 89 ∷ 128 ∷ 236 ∷ 53 ∷ 52 ∷ 237 ∷ 129 ∷ 88 ∷ 48 ∷ 233 ∷ 133 ∷ 92 ∷ 93 ∷ 132 ∷ 232
    ∷ 49 ∷ 234 ∷ 51 ∷ 95 ∷ 134 ∷ 135 ∷ 94 ∷ 50 ∷ 235 ∷ 226 ∷ 59 ∷ 87 ∷ 142 ∷ 143 ∷ 86 ∷ 58 ∷ 227
    ∷ 56 ∷ 225 ∷ 141 ∷ 84 ∷ 85 ∷ 140 ∷ 224 ∷ 57 ∷ 81 ∷ 136 ∷ 228 ∷ 61 ∷ 60 ∷ 229 ∷ 137 ∷ 80 ∷ 139
    ∷ 82 ∷ 62 ∷ 231 ∷ 230 ∷ 63 ∷ 83 ∷ 138 ∷ 65 ∷ 152 ∷ 244 ∷ 45 ∷ 44 ∷ 245 ∷ 153 ∷ 64 ∷ 155 ∷ 66
    ∷ 46 ∷ 247 ∷ 246 ∷ 47 ∷ 67 ∷ 154 ∷ 242 ∷ 43 ∷ 71 ∷ 158 ∷ 159 ∷ 70 ∷ 42 ∷ 243 ∷ 40 ∷ 241 ∷ 157
    ∷ 68 ∷ 69 ∷ 156 ∷ 240 ∷ 41 ∷ 32 ∷ 249 ∷ 149 ∷ 76 ∷ 77 ∷ 148 ∷ 248 ∷ 33 ∷ 250 ∷ 35 ∷ 79 ∷ 150
    ∷ 151 ∷ 78 ∷ 34 ∷ 251 ∷ 147 ∷ 74 ∷ 38 ∷ 255 ∷ 254 ∷ 39 ∷ 75 ∷ 146 ∷ 73 ∷ 144 ∷ 252 ∷ 37 ∷ 36
    ∷ 253 ∷ 145 ∷ 72 ∷ []

-- A test that each of the numbers from k - 1 down to 0 passes.
passes : (ℕ → Bool) → ℕ → Bool
passes test zero = true
passes test (suc k) = let rest = passes test k in if test k then rest else false

passes_at : (test : ℕ → Bool) (k b : ℕ) → b < k → passes test k ≡ true → test b ≡ true
unfolding passes
passes_at test zero b small h = absurd (omega (arith, small))
passes_at test (suc k) b small h = ground (arith, passes_at test k b)

EveryByte : (ℕ → Bool) → Type 0
unfolding passes
EveryByte test = passes test 256 ≡ true

EveryPair : (ℕ → ℕ → Bool) → Type 0
unfolding EveryByte passes
EveryPair test = EveryByte (λ x. passes (test x) 256)

byte_passes : (test : ℕ → Bool) → EveryByte test → (b : ℕ) → b < 256 → test b ≡ true
unfolding EveryByte
byte_passes test h b small = passes_at test 256 b small h

pair_passes :
    (test : ℕ → ℕ → Bool) → EveryPair test → (a b : ℕ) → a < 256 → b < 256 → test a b ≡ true
unfolding EveryPair EveryByte
pair_passes test h a b small small2 =
    passes_at (test a) 256 b small2 (passes_at (λ x. passes (test x) 256) 256 a small h)

abbrev at_byte : List ℕ → ℕ → ℕ
at_byte table x = or_zero (get_elem? table x)

inverse_checks : EveryByte (λ x. at_byte inverse_table (at_byte crc8_table x) == x)
unfolding EveryByte
inverse_checks = refl

xor_checks : EveryPair (λ x y. bit_xor x (bit_xor x y) == y)
unfolding EveryPair
xor_checks = refl

xor_right_checks : EveryPair (λ x y. bit_xor (bit_xor x y) y == x)
unfolding EveryPair
xor_right_checks = refl

range_checks : EveryPair (λ x y. ltb (bit_xor x y) 256)
unfolding EveryPair
range_checks = refl

table_checks : EveryByte (λ x. ltb (at_byte crc8_table x) 256)
unfolding EveryByte
table_checks = refl

self_checks : EveryByte (λ x. at_byte crc8_table (bit_xor x x) == 0)
unfolding EveryByte
self_checks = refl

equal : (a b : ℕ) → (a == b) ≡ true → a ≡ b
equal a b h = ground arith

inverse-crc8_table : (x : ℕ) → x < 256 → at_byte inverse_table (at_byte crc8_table x) ≡ x
inverse-crc8_table x h =
    equal (at_byte inverse_table (at_byte crc8_table x)) x
      (byte_passes (λ z. at_byte inverse_table (at_byte crc8_table z) == z) inverse_checks x h)

crc8_table-injective :
    (x y : ℕ) → x < 256 → y < 256 → at_byte crc8_table x ≡ at_byte crc8_table y → x ≡ y
crc8_table-injective x y hx hy h =
    sym (inverse-crc8_table x hx) ∙ (ap (at_byte inverse_table) h ∙ inverse-crc8_table y hy)

bit_xor-Byte : (x y : ℕ) → x < 256 → y < 256 → bit_xor x y < 256
bit_xor-Byte x y hx hy =
    ltb→lt (bit_xor x y) 256 (pair_passes (λ a b. ltb (bit_xor a b) 256) range_checks x y hx hy)

pub proc_crc8-Byte : (x y : ℕ) → x < 256 → y < 256 → proc_crc8 x y < 256
unfolding proc_crc8
proc_crc8-Byte x y hx hy = ltb→lt (at_byte crc8_table (bit_xor x y)) 256 (
    byte_passes (λ z. ltb (at_byte crc8_table z) 256) table_checks (bit_xor x y)
      (bit_xor-Byte x y hx hy))

-- The checksum before a byte is known from that behind it.
pub proc_crc8-left :
    (x y c : ℕ) → x < 256 → y < 256 → c < 256 → proc_crc8 x c ≡ proc_crc8 y c → x ≡ y
unfolding proc_crc8
proc_crc8-left x y c hx hy hc h =
    sym (undo x hx)
    ∙ (ap (λ z. bit_xor z c)
          (crc8_table-injective (bit_xor x c) (bit_xor y c) (bit_xor-Byte x c hx hc)
            (bit_xor-Byte y c hy hc) h)
        ∙ undo y hy)
  where
    undo : (z : ℕ) → z < 256 → bit_xor (bit_xor z c) c ≡ z
    undo z hz =
        equal (bit_xor (bit_xor z c) c) z
          (pair_passes (λ a b. bit_xor (bit_xor a b) b == a) xor_right_checks z c hz hc)

-- The byte is known from the checksums before and behind it.
pub proc_crc8-right :
    (c x y : ℕ) → c < 256 → x < 256 → y < 256 → proc_crc8 c x ≡ proc_crc8 c y → x ≡ y
unfolding proc_crc8
proc_crc8-right c x y hc hx hy h =
    sym (undo x hx)
    ∙ (ap (λ z. bit_xor c z)
          (crc8_table-injective (bit_xor c x) (bit_xor c y) (bit_xor-Byte c x hc hx)
            (bit_xor-Byte c y hc hy) h)
        ∙ undo y hy)
  where
    undo : (z : ℕ) → z < 256 → bit_xor c (bit_xor c z) ≡ z
    undo z hz =
        equal (bit_xor c (bit_xor c z)) z
          (pair_passes (λ a b. bit_xor a (bit_xor a b) == b) xor_checks c z hc hz)

-- A byte put into its own checksum.
pub proc_crc8_self : (x : ℕ) → x < 256 → proc_crc8 x x ≡ 0
unfolding proc_crc8
proc_crc8_self x h =
    equal (at_byte crc8_table (bit_xor x x)) 0
      (byte_passes (λ z. at_byte crc8_table (bit_xor z z) == 0) self_checks x h)

abbrev pub Bytes : List ℕ → Type 0
Bytes s = All (λ c. c < 256) s

pub crc8-Byte : (s : List ℕ) (crc : ℕ) → crc < 256 → Bytes s → crc8 crc s < 256
unfolding crc8
crc8-Byte [] crc h hs = h
crc8-Byte (c ∷ s) crc h (hc, hs) = crc8-Byte s (proc_crc8 crc c) (proc_crc8-Byte crc c h hc) hs

pub crc8-left : (s : List ℕ) (x y : ℕ) → x < 256 → y < 256 → Bytes s → crc8 x s ≡ crc8 y s → x ≡ y
unfolding crc8
crc8-left [] x y hx hy hs h = h
crc8-left (c ∷ s) x y hx hy (hc, hs) h = proc_crc8-left x y c hx hy hc (
    crc8-left s (proc_crc8 x c) (proc_crc8 y c) (proc_crc8-Byte x c hx hc)
      (proc_crc8-Byte y c hy hc) hs h)

-- Bytes that differ in one place have different checksums.
pub crc8-one :
    (s : List ℕ) (x y : ℕ) (t : List ℕ) (crc : ℕ)
    → crc < 256
    → Bytes (s ++ x ∷ t)
    → y < 256
    → crc8 crc (s ++ x ∷ t) ≡ crc8 crc (s ++ y ∷ t)
    → x ≡ y
unfolding crc8
crc8-one [] x y t crc hc (hx, ht) hy h = proc_crc8-right crc x y hc hx hy (
    crc8-left t (proc_crc8 crc x) (proc_crc8 crc y) (proc_crc8-Byte crc x hc hx)
      (proc_crc8-Byte crc y hc hy) ht h)
crc8-one (c ∷ s) x y t crc hc (hb, hs) hy h =
    crc8-one s x y t (proc_crc8 crc c) (proc_crc8-Byte crc c hc hb) hs hy h
