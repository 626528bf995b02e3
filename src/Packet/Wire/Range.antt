-- ===== src/Packet/Wire/Range.antt =====
-- The ranges of a parsed packet (src/simple-ntpd/core/packet.cpp).
use simple_ntpd.Common.{◌≤◌, ◌≡◌, arith, some, get_or, length, All}
use simple_ntpd.Common.Int.{to_signed-IsI8}
use simple_ntpd.Common.Text.{Bytes}
use simple_ntpd.Packet.{NtpPacket, FitsWire, IsByte}
use simple_ntpd.Packet.Wire.{packet_fields, parse_from_data}
use simple_ntpd.Packet.Wire.Words.{first_byte_fields}
use simple_ntpd.Packet.Wire.Read.{get_or-IsByte, read_u32_be-lt, read_timestamp-IsTimestamp}

packet_fields-FitsWire : (buffer : Bytes) → All IsByte buffer → FitsWire (packet_fields buffer)
unfolding packet_fields
packet_fields-FitsWire buffer h =
    let b = first_byte_fields (get_or buffer 0 0) (get_or-IsByte buffer 0 h) in
    record {
      leap_bound = omega (arith, b, get_or-IsByte buffer 0 h);
      version_bound = omega (arith, b);
      mode_bound = omega (arith, b);
      stratum_bound = get_or-IsByte buffer 1 h;
      poll_bound = get_or-IsByte buffer 2 h;
      precision_bound = to_signed-IsI8 (get_or buffer 3 0) (get_or-IsByte buffer 3 h);
      root_delay_bound = read_u32_be-lt buffer 4 h;
      root_dispersion_bound = read_u32_be-lt buffer 8 h;
      reference_id_bound = read_u32_be-lt buffer 12 h;
      reference_fits = read_timestamp-IsTimestamp buffer 16 h;
      originate_fits = read_timestamp-IsTimestamp buffer 24 h;
      receive_fits = read_timestamp-IsTimestamp buffer 32 h;
      transmit_fits = read_timestamp-IsTimestamp buffer 40 h;
    }

-- A packet parsed from bytes has every field in the range that the wire can hold.
pub parse-FitsWire :
    (buffer : Bytes) (p : NtpPacket)
    → All IsByte buffer
    → parse_from_data buffer ≡ some p
    → FitsWire p
unfolding parse_from_data
parse-FitsWire buffer p bytes e = rw (← fields) (packet_fields-FitsWire buffer bytes)
  where
    fields : packet_fields buffer ≡ p
    fields = ground arith

-- Only a buffer of at least 48 bytes parses.
pub parse_from_data-length :
    (buffer : Bytes) (p : NtpPacket) → parse_from_data buffer ≡ some p → 48 ≤ length buffer
unfolding parse_from_data
parse_from_data-length buffer p e = ground arith
