-- ===== src/Packet/Response.antt =====
-- `createClientRequest`, `createServerResponse` and the tests of the mode, in
-- src/simple-ntpd/core/packet.cpp.
pub mod Laws
use simple_ntpd.Common.{
  ℕ, ◌+◌, ◌*◌, ◌/◌, ◌%◌, ◌^◌, ◌≤◌, ◌<◌, bit_and, bit_or, List, [], ◌∷◌, ◌++◌, Option, none, some,
  Bool, true, false, get_or, set, replicate, length, ltb, ◌==◌, ◌||◌, not, if◌then◌else◌, ◌|>◌,
  take,
}
use simple_ntpd.Common.Int.{ℤ, pos, negsuc, to_signed, to_unsigned, IsI8, pos_part}
use simple_ntpd.Common.Text.{Bytes}
use simple_ntpd.Platform.{ntp_packet_size, ntp_version, mode_byte, mode_of}
use simple_ntpd.Platform.{client, server}
use simple_ntpd.Timestamp.{NtpTimestamp, IsTimestamp, zero_timestamp, from_system_time}
use simple_ntpd.Packet.{NtpPacket, default_packet, FitsWire, IsByte}

-- `NtpPacketHandler::isClientRequest` and `isServerResponse`
abbrev pub is_client_request : NtpPacket → Bool
is_client_request p = p.mode == mode_byte client

abbrev pub is_server_response : NtpPacket → Bool
is_server_response p = p.mode == mode_byte server

-- `createClientRequest`, at time `now`
unfoldable pub create_client_request : ℤ → NtpPacket
create_client_request now = record default_packet {
  leap_indicator = 0;
  version = ntp_version;
  mode = mode_byte client;
  stratum = 0;
  poll = 4;
  precision = negsuc 5;
  transmit_ts = from_system_time now;
}

-- The loop over the first four characters of the reference identifier.
unfoldable pub pack_reference_id : ℕ → Bytes → ℕ
pack_reference_id ref_id [] = ref_id
pack_reference_id ref_id (c ∷ cs) = pack_reference_id (bit_or (ref_id * 2 ^ 8 % 2 ^ 32) c) cs

-- The three readings of the system clock that `createServerResponse` makes, in their order.
pub record ResponseClock : Type 0 where
  pub at_receive : ℤ
  pub at_transmit : ℤ
  pub at_reference : ℤ

-- `createServerResponse`
unfoldable pub create_server_response : NtpPacket → ℕ → Bytes → ResponseClock → NtpPacket
unfolding pack_reference_id
create_server_response client_packet stratum reference_id clock = record default_packet {
  leap_indicator = 0;
  version = ntp_version;
  mode = mode_byte server;
  stratum = stratum;
  poll = 4;
  precision = negsuc 5;
  originate_ts = client_packet.transmit_ts;
  receive_ts = from_system_time clock.at_receive;
  transmit_ts = from_system_time clock.at_transmit;
  reference_ts = from_system_time clock.at_reference;
  reference_id = pack_reference_id 0 (take 4 reference_id);
}
