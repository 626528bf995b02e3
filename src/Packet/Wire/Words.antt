-- ===== src/Packet/Wire/Words.antt =====
-- The packed fields of the first byte and the big-endian words, as arithmetic.
use simple_ntpd.Common.{ℕ, ◌+◌, ◌*◌, ◌/◌, ◌%◌, ◌^◌, ◌<◌, ◌≡◌, bit_and, bit_or, arith, get_or}
use simple_ntpd.Common.Bits.{bit_and_mask, bit_or_disjoint}
use simple_ntpd.Common.Text.{Bytes}
use simple_ntpd.Packet.Wire.{read_u32_be, octet, first_byte_of}

pub octet-eq : (k value : ℕ) → octet k value ≡ value / 2 ^ k % 256
unfolding octet
octet-eq k value = omega (arith, bit_and_mask 0 8 (value / 2 ^ k))

-- A word from its four bytes.
abbrev pub word : ℕ → ℕ → ℕ → ℕ → ℕ
word a b c d = a * 2 ^ 24 + b * 2 ^ 16 + c * 2 ^ 8 + d

or_word :
    (a b c d : ℕ)
    → a < 256
    → b < 256
    → c < 256
    → d < 256
    → bit_or (bit_or (bit_or (a * 2 ^ 24 % 2 ^ 32) (b * 2 ^ 16 % 2 ^ 32)) (c * 2 ^ 8 % 2 ^ 32)) d
      ≡ word a b c d
or_word a b c d ha hb hc hd = ground (
  arith,
  bit_or_disjoint 24 a (b * 2 ^ 16) (omega arith),
  bit_or_disjoint 16 (a * 256 + b) (c * 256) (omega arith),
  bit_or_disjoint 8 (a * 65536 + b * 256 + c) d hd,
)

-- Reading a word gives the number that its four bytes write.
pub read_u32_be-word :
    (buffer : Bytes) (i : ℕ)
    → get_or buffer i 0 < 256
    → get_or buffer (i + 1) 0 < 256
    → get_or buffer (i + 2) 0 < 256
    → get_or buffer (i + 3) 0 < 256
    → read_u32_be buffer i
      ≡ word
          (get_or buffer i 0)
          (get_or buffer (i + 1) 0)
          (get_or buffer (i + 2) 0)
          (get_or buffer (i + 3) 0)
unfolding read_u32_be
read_u32_be-word buffer i ha hb hc hd = or_word _ _ _ _ ha hb hc hd

-- A value cut to octets and put together again.
pub word-octet : (v : ℕ) → v < 2 ^ 32 → word (octet 24 v) (octet 16 v) (octet 8 v) (octet 0 v) ≡ v
word-octet v h = omega (arith, octet-eq)

pub octet-lt : (k v : ℕ) → octet k v < 256
octet-lt k v = omega (arith, octet-eq k v)

pub first_byte_of-eq :
    (li vn mode : ℕ) → first_byte_of li vn mode ≡ li % 4 * 64 + vn % 8 * 8 + mode % 8
unfolding first_byte_of
first_byte_of-eq li vn mode = ground (
  arith,
  bit_and_mask 0 2 li,
  bit_and_mask 0 3 vn,
  bit_and_mask 0 3 mode,
  bit_or_disjoint 6 (li % 4) (vn % 8 * 8) (omega arith),
  bit_or_disjoint 3 (li % 4 * 8 + vn % 8) (mode % 8) (omega arith),
)

-- The three fields that `parseFromData` takes from the first byte.
pub first_byte_fields :
    (b : ℕ)
    → b < 256
    → (bit_and (b / 2 ^ 6) 0x3 ≡ b / 64)
      × (bit_and (b / 2 ^ 3) 0x7 ≡ b / 8 % 8)
      × (bit_and b 0x7 ≡ b % 8)
first_byte_fields b h =
    omega (arith, bit_and_mask 0 2 (b / 2 ^ 6), bit_and_mask 0 3 (b / 2 ^ 3), bit_and_mask 0 3 b)
