-- ===== src/Packet.antt =====
-- `NtpPacket` of include/simple-ntpd/core/packet.hpp, as src/simple-ntpd/core/packet.cpp fills it.
-- A buffer is the list of its bytes.
pub mod Wire
pub mod Validation
pub mod Response
pub mod Samples
mod Runs
use simple_ntpd.Common.{
  ℕ, ◌+◌, ◌*◌, ◌/◌, ◌%◌, ◌^◌, ◌≤◌, ◌<◌, bit_and, bit_or, List, [], ◌∷◌, ◌++◌, Option, none, some,
  Bool, true, false, get_or, set, replicate, length, ltb, ◌==◌, ◌||◌, not, if◌then◌else◌, ◌|>◌,
  take,
}
use simple_ntpd.Common.Int.{ℤ, pos, negsuc, to_signed, to_unsigned, IsI8, pos_part}
use simple_ntpd.Common.Text.{Bytes}
use simple_ntpd.Platform.{ntp_packet_size, ntp_version, mode_byte, mode_of}
use simple_ntpd.Platform.{client, server}
use simple_ntpd.Timestamp.{NtpTimestamp, IsTimestamp, zero_timestamp, from_system_time}

pub record NtpPacket : Type 0 where
  pub leap_indicator : ℕ
  pub version : ℕ
  pub mode : ℕ
  pub stratum : ℕ
  pub poll : ℕ
  pub precision : ℤ
  pub root_delay : ℕ
  pub root_dispersion : ℕ
  pub reference_id : ℕ
  pub reference_ts : NtpTimestamp
  pub originate_ts : NtpTimestamp
  pub receive_ts : NtpTimestamp
  pub transmit_ts : NtpTimestamp

-- `NtpPacket()`
abbrev pub default_packet : NtpPacket
default_packet = record {
  leap_indicator = 0;
  version = ntp_version;
  mode = 0;
  stratum = 0;
  poll = 0;
  precision = pos 0;
  root_delay = 0;
  root_dispersion = 0;
  reference_id = 0;
  reference_ts = zero_timestamp;
  originate_ts = zero_timestamp;
  receive_ts = zero_timestamp;
  transmit_ts = zero_timestamp;
}

-- The field ranges of a packet that a 48-byte message can hold.
pub record FitsWire (p : NtpPacket) : Type 0 where
  pub leap_bound : p.leap_indicator < 4
  pub version_bound : p.version < 8
  pub mode_bound : p.mode < 8
  pub stratum_bound : p.stratum < 256
  pub poll_bound : p.poll < 256
  pub precision_bound : IsI8 p.precision
  pub root_delay_bound : p.root_delay < 2 ^ 32
  pub root_dispersion_bound : p.root_dispersion < 2 ^ 32
  pub reference_id_bound : p.reference_id < 2 ^ 32
  pub reference_fits : IsTimestamp p.reference_ts
  pub originate_fits : IsTimestamp p.originate_ts
  pub receive_fits : IsTimestamp p.receive_ts
  pub transmit_fits : IsTimestamp p.transmit_ts

abbrev pub IsByte : ℕ → Type 0
IsByte b = b < 256
