-- ===== src/Packet/Wire/Read.antt =====
-- Reading back the words of a packet (src/simple-ntpd/core/packet.cpp).
use simple_ntpd.Common.{ℕ, zero, suc, ◌+◌, ◌^◌, ◌<◌, ◌≡◌, arith, [], ◌∷◌, get_or, All}
use simple_ntpd.Common.Text.{Bytes}
use simple_ntpd.Timestamp.{NtpTimestamp, IsTimestamp}
use simple_ntpd.Packet.{IsByte}
use simple_ntpd.Packet.Wire.{read_u32_be, octet, read_timestamp}
use simple_ntpd.Packet.Wire.Words.{octet-eq, octet-lt, read_u32_be-word, word-octet}

-- The buffer holds the octets of `v` at `i`.
pub record Holds (buffer : Bytes) (i v : ℕ) : Type 0 where
  pub at_0 : get_or buffer i 0 ≡ octet 24 v
  pub at_1 : get_or buffer (i + 1) 0 ≡ octet 16 v
  pub at_2 : get_or buffer (i + 2) 0 ≡ octet 8 v
  pub at_3 : get_or buffer (i + 3) 0 ≡ octet 0 v

pub read_back :
    (buffer : Bytes) (i v : ℕ) → v < 2 ^ 32 → Holds buffer i v → read_u32_be buffer i ≡ v
read_back buffer i v h o = omega (
  arith,
  read_u32_be-word buffer i (small 24 o.at_0) (small 16 o.at_1) (small 8 o.at_2) (small 0 o.at_3),
  word-octet v h,
)
  where
    small : {b : ℕ} (k : ℕ) → b ≡ octet k v → b < 256
    small k e = omega (arith, octet-lt k v)

pub timestamp_back :
    (buffer : Bytes) (i : ℕ) (t : NtpTimestamp)
    → IsTimestamp t
    → Holds buffer i t.seconds
    → Holds buffer (i + 4) t.fraction
    → read_timestamp buffer i ≡ t
unfolding read_timestamp
timestamp_back buffer i t v p q = λ j. record {
  seconds = read_back buffer i t.seconds v.seconds_bound p j;
  fraction = read_back buffer (i + 4) t.fraction v.fraction_bound q j;
}

pub get_or-IsByte : (buffer : Bytes) (i : ℕ) → All IsByte buffer → get_or buffer i 0 < 256
get_or-IsByte [] i h = omega arith
get_or-IsByte (b ∷ bs) zero h = h.0
get_or-IsByte (b ∷ bs) (suc i) h = get_or-IsByte bs i h.1

-- A buffer of bytes holds the word that is read from it.
pub Holds-self :
    (buffer : Bytes) (i : ℕ) → All IsByte buffer → Holds buffer i (read_u32_be buffer i)
Holds-self buffer i h = omega (
  arith,
  octet-eq,
  get_or-IsByte buffer i h,
  get_or-IsByte buffer (i + 1) h,
  get_or-IsByte buffer (i + 2) h,
  get_or-IsByte buffer (i + 3) h,
  read_u32_be-word buffer i (get_or-IsByte buffer i h) (get_or-IsByte buffer (i + 1) h)
      (get_or-IsByte buffer (i + 2) h) (get_or-IsByte buffer (i + 3) h),
)

pub read_u32_be-lt : (buffer : Bytes) (i : ℕ) → All IsByte buffer → read_u32_be buffer i < 2 ^ 32
read_u32_be-lt buffer i h =
    let a = get_or-IsByte buffer i h in
    let b = get_or-IsByte buffer (i + 1) h in
    let c = get_or-IsByte buffer (i + 2) h in
    let d = get_or-IsByte buffer (i + 3) h in omega (arith, read_u32_be-word buffer i a b c d)

pub read_timestamp-IsTimestamp :
    (buffer : Bytes) (i : ℕ) → All IsByte buffer → IsTimestamp (read_timestamp buffer i)
unfolding read_timestamp
read_timestamp-IsTimestamp buffer i h = record {
  seconds_bound = read_u32_be-lt buffer i h;
  fraction_bound = read_u32_be-lt buffer (i + 4) h;
}
