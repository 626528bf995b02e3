-- ===== src/Net.antt =====
-- `isIpInCidr` of src/simple-ntpd/utils/net.cpp. `inet_pton` is the system's: it gives the address
-- of a dotted text as a number in host order (the source's `ntohl` included), or fails.
pub mod Cidr
mod Runs
use simple_ntpd.Common.{
  ℕ, ◌+◌, ◌-◌, ◌*◌, ◌%◌, ◌^◌, bit_and, Bool, true, false, ◌||◌, Option, none, some, ◌==◌, ltb,
  if◌then◌else◌, take, drop,
}
use simple_ntpd.Common.Int.{ℤ, pos, negsuc, ltb_ℤ, pos_part}
use simple_ntpd.Common.Text.{Bytes, equal, find, stoi}
use simple_ntpd.Common.Result.{Result, ok, exception}

-- `prefix == 0 ? 0 : 0xFFFFFFFFu << (32 - prefix)`
abbrev pub prefix_mask : ℕ → ℕ
prefix_mask prefix = if prefix == 0 then 0 else 0xffffffff * 2 ^ (32 - prefix) % 2 ^ 32

same_network : ℕ → Option ℕ → Option ℕ → Bool
same_network prefix none base = false
same_network prefix (some ip_u) none = false
same_network prefix (some ip_u) (some base_u) =
    bit_and ip_u (prefix_mask prefix) == bit_and base_u (prefix_mask prefix)

module _ (inet_pton : Bytes → Option ℕ) where
  -- Behind the slash; an exception of `stoi` is not caught.
  in_block : Bytes → Bytes → Option ℤ → Result Bool
  in_block ip base_ip none = exception
  in_block ip base_ip (some (negsuc n)) = ok false
  in_block ip base_ip (some (pos prefix)) =
      if ltb 32 prefix
      then ok false
      else ok (same_network prefix (inet_pton ip) (inet_pton base_ip))

  unfoldable pub is_ip_in_cidr : Bytes → Bytes → Result Bool
  unfolding in_block same_network
  is_ip_in_cidr ip cidr = elim (find b'/' cidr) [
    | none ↦ ok (equal ip cidr)
    | some slash ↦ in_block ip (take slash cidr) (stoi (drop (slash + 1) cidr))
  ]
