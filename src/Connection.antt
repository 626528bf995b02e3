-- ===== src/Connection.antt =====
-- `NtpConnection` of include/simple-ntpd/core/connection.hpp and src/simple-ntpd/core/connection.cpp.
-- The digest functions of OpenSSL, the steady clock and the results of the socket calls are
-- arguments. Logging and the fields that no operation reads are left out. `config_` is never null:
-- the server reads through it before it makes a connection.
pub mod Admission
pub mod Authentication
pub mod Limit
pub mod Socket
mod Runs
use simple_ntpd.Common.{
  ℕ, ◌+◌, ◌%◌, ◌^◌, ◌<◌, Bool, true, false, not, ◌&&◌, ◌||◌, Option, none, some, List, [], ◌∷◌,
  ◌++◌, ◌==◌, ltb, if◌then◌else◌, length, is_empty, get_or,
}
use simple_ntpd.Common.Text.{Bytes, codes}
use simple_ntpd.Common.Map.{lookup, insert, nat_eq}
use simple_ntpd.Platform.{ntp_packet_size, mode_byte, client}
use simple_ntpd.Config.{NtpConfig, AuthAlgorithm}
use simple_ntpd.Packet.{NtpPacket}
use simple_ntpd.Packet.Wire.{read_u32_be, parse_from_data, serialize_to_data}
use simple_ntpd.Packet.Validation.{is_valid}

pub record NtpConnectionStats : Type 0 where
  pub packets_received : ℕ
  pub packets_sent : ℕ
  pub bytes_received : ℕ
  pub bytes_sent : ℕ
  pub errors : ℕ

abbrev pub no_stats : NtpConnectionStats
no_stats = record {
  packets_received = 0;
  packets_sent = 0;
  bytes_received = 0;
  bytes_sent = 0;
  errors = 0;
}

-- `none` for the socket is `INVALID_SOCKET`.
pub record NtpConnection : Type 0 where
  pub client_socket : Option ℕ
  pub client_address : Bytes
  pub config : NtpConfig
  pub active : Bool
  pub stats : NtpConnectionStats
  pub trusted_client : Bool
  pub request_buckets : List (ℕ × ℕ)

-- A `uint64_t` counter, increased.
abbrev pub add_u64 : ℕ → ℕ → ℕ
add_u64 counter n = (counter + n) % 2 ^ 64

-- The constructor
abbrev pub new_connection : Option ℕ → Bytes → NtpConfig → NtpConnection
new_connection socket address config = record {
  client_socket = socket;
  client_address = address;
  config = config;
  active = true;
  stats = no_stats;
  trusted_client = false;
  request_buckets = [];
}

unfoldable pub start : NtpConnection → NtpConnection
start c = if c.active then c else record c { active = true }

unfoldable pub stop : NtpConnection → NtpConnection
stop c = if not c.active then c else record c { active = false; client_socket = none }

abbrev pub set_trusted : Bool → NtpConnection → NtpConnection
set_trusted trusted c = record c { trusted_client = trusted }

-- What `validateAuthentication` hashes in front of the packet; `none` where it does not hash.
unfoldable pub algo_prefix : AuthAlgorithm → Option Bytes
algo_prefix AuthAlgorithm.md5 = some (codes "md5:")
algo_prefix AuthAlgorithm.sha1 = some (codes "sha1:")
algo_prefix AuthAlgorithm.sha256 = some (codes "sha256:")
algo_prefix AuthAlgorithm.none = none
algo_prefix (AuthAlgorithm.other n) = none

-- `authentication_key`, or else the value of the first entry of `authentication_keys`, which stand in the
-- order of the iteration over the map.
first_key : List (ℕ × Bytes) → Bytes
first_key [] = []
first_key ((id, key) ∷ rest) = key

unfoldable pub key_material : NtpConfig → Bytes
unfolding first_key
key_material config =
    if is_empty config.authentication_key
    then first_key config.authentication_keys
    else config.authentication_key

-- The end of `validateAuthentication`, on the digest.
unfoldable pub check_marker : NtpPacket → Option Bytes → Bool
check_marker packet none = false
check_marker packet (some digest) =
    let marker = read_u32_be digest 0 in
    if ltb (length digest) 4
    then false
    else not (marker == 0) && (packet.reference_id == 0 || packet.reference_id == marker)

-- `digest algorithm text` is what the `EVP_Digest…` calls return, or `none` if one fails.
module _ (digest : AuthAlgorithm → Bytes → Option Bytes) where
  hashed : NtpConfig → NtpPacket → Bytes → Option Bytes → Bool
  hashed config packet raw_data none = not (is_empty (key_material config))
  hashed config packet raw_data (some prefix) =
      check_marker packet
        (digest config.authentication_algorithm (prefix ++ (raw_data ++ key_material config)))

  unfoldable pub validate_authentication : NtpConfig → NtpPacket → Bytes → Bool
  unfolding hashed
  validate_authentication config packet raw_data =
      if not config.enable_authentication
      then true
      else if is_empty (key_material config)
      then false
      else hashed config packet raw_data (algo_prefix config.authentication_algorithm)

-- `++request_buckets_[minute]`, a `uint32_t` that starts at 0
abbrev count_of : Option ℕ → ℕ
count_of none = 0
count_of (some n) = n

abbrev pub request_count : ℕ → NtpConnection → ℕ
request_count minute c = (count_of (lookup minute c.request_buckets) + 1) % 2 ^ 32

unfoldable pub count_request : ℕ → NtpConnection → NtpConnection
count_request minute c = record c {
  request_buckets = insert minute (request_count minute c) c.request_buckets;
}

abbrev pub record_request : Bytes → NtpConnection → NtpConnection
record_request buffer c = record c {
  stats = record c.stats {
    packets_received = add_u64 c.stats.packets_received 1;
    bytes_received = add_u64 c.stats.bytes_received (length buffer);
  };
}

module _ (digest : AuthAlgorithm → Bytes → Option Bytes) where
  -- Behind the rate limit: authentication, then the statistics.
  authenticate : NtpPacket → Bytes → NtpConnection → NtpConnection × Bool
  authenticate packet buffer c =
      if c.config.enable_authentication
        && not (validate_authentication digest c.config packet buffer)
      then (c, false)
      else (record_request buffer c, true)

  -- The request-rate limit of the connection.
  limit_rate : ℕ → NtpPacket → Bytes → NtpConnection → NtpConnection × Bool
  limit_rate minute packet buffer c =
      if c.config.enable_rate_limiting
      then (if ltb c.config.request_rate_limit_per_minute (request_count minute c)
          then (count_request minute c, false)
          else authenticate packet buffer (count_request minute c))
      else authenticate packet buffer c

  check_packet : ℕ → Option NtpPacket → Bytes → NtpConnection → NtpConnection × Bool
  check_packet minute none buffer c = (c, false)
  check_packet minute (some packet) buffer c =
      if not (is_valid packet)
      then (c, false)
      else if not (packet.mode == mode_byte client)
      then (c, false)
      else limit_rate minute packet buffer c

  -- `handlePacket`, in the minute `minute` of the steady clock.
  unfoldable pub handle_packet : ℕ → Bytes → NtpConnection → NtpConnection × Bool
  unfolding check_packet limit_rate authenticate count_request
  handle_packet minute buffer c =
      if not c.active
      then (c, false)
      else if ltb (length buffer) ntp_packet_size
      then (c, false)
      else check_packet minute (parse_from_data buffer) buffer c
