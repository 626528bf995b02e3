-- ===== src/Packet/Runs.antt =====
-- Runs of the packet operations.
use simple_ntpd.Common.{◌≡◌, refl, arith, false, none, some, [], ◌∷◌, ◌++◌, take, drop}
use simple_ntpd.Common.Int.{pos, to_signed, to_unsigned}
use simple_ntpd.Packet.{NtpPacket}
use simple_ntpd.Packet.Samples.{
  request_bytes, sample_request, sample_response, sample_response-FitsWire,
}
use simple_ntpd.Packet.Wire.{
  read_u32_be, octet, read_timestamp, packet_fields, parse_from_data, first_byte_of,
  serialize_to_data,
}
use simple_ntpd.Packet.Wire.RoundTrip.{parse-serialize, serialize-parse}
use simple_ntpd.Packet.Validation.{
  invalid_stratum, invalid_poll, report, validate_version, validate_mode, validate_detailed,
}
use simple_ntpd.Packet.Response.{ResponseClock}

parse_runs : parse_from_data request_bytes ≡ some sample_request
unfolding parse_from_data packet_fields read_timestamp read_u32_be to_signed
parse_runs = refl

short_runs : parse_from_data (drop 1 request_bytes) ≡ none
unfolding parse_from_data
short_runs = refl

serialize_runs : serialize_to_data sample_request ≡ request_bytes
unfolding serialize_to_data first_byte_of octet to_unsigned
serialize_runs = refl

packet_errors_run :
    validate_detailed (record sample_request { stratum = 16; poll = 0 })
    ≡ (invalid_stratum 16 ∷ invalid_poll 0 ∷ [], false)
unfolding validate_detailed report validate_version validate_mode
packet_errors_run = refl

parse-serialize_example :
    parse_from_data (serialize_to_data sample_response ++ (7 ∷ [])) ≡ some sample_response
parse-serialize_example = parse-serialize sample_response (7 ∷ []) sample_response-FitsWire

serialize-parse_example :
    (p : NtpPacket) × (parse_from_data request_bytes ≡ some p)
    × (serialize_to_data p ≡ take 48 request_bytes)
serialize-parse_example = serialize-parse request_bytes (omega arith) (omega arith)

abbrev clock : ResponseClock
clock = record { at_receive = pos 0; at_transmit = pos 1000; at_reference = pos 2000 }
