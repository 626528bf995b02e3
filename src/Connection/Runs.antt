-- ===== src/Connection/Runs.antt =====
-- Runs of `handlePacket` on a client's request.
use simple_ntpd.Common.{ℕ, List, ◌≡◌, ◌≢◌, ◌↔◌, refl, true, false, Option, none, some, [], ◌∷◌}
use simple_ntpd.Common.Text.{Bytes, codes}
use simple_ntpd.Common.Int.{to_signed}
use simple_ntpd.Common.Map.{lookup, insert}
use simple_ntpd.Config.{NtpConfig, AuthAlgorithm, set_defaults}
use simple_ntpd.Packet.Samples.{request_bytes, sample_request}
use simple_ntpd.Packet.Wire.{read_u32_be, read_timestamp, packet_fields, parse_from_data}
use simple_ntpd.Packet.Validation.{
  is_valid, validate_detailed, report, validate_version, validate_mode,
}
use simple_ntpd.Connection.Socket.Loop.{run_length}
use simple_ntpd.Connection.{
  NtpConnection, new_connection, algo_prefix, key_material, validate_authentication, count_request,
  authenticate, limit_rate, check_packet, handle_packet,
}
use simple_ntpd.Connection.Admission.{Admissible, handle_packet_iff}
use simple_ntpd.Connection.Authentication.{Marks, packet_digest, authentication_iff}
use simple_ntpd.Connection.Limit.{accepted}

-- A digest that is the same for every text.
abbrev fixed_digest : AuthAlgorithm → Bytes → Option Bytes
fixed_digest algorithm text = some (1 ∷ 2 ∷ 3 ∷ 4 ∷ 5 ∷ [])

abbrev open_connection : NtpConnection
open_connection = new_connection none (codes "10.0.0.7") set_defaults

-- At most two requests in a minute.
abbrev limited_connection : NtpConnection
limited_connection = record open_connection {
  config = record set_defaults { enable_rate_limiting = true; request_rate_limit_per_minute = 2 };
}

abbrev keyed_config : NtpConfig
keyed_config = record set_defaults {
  enable_authentication = true;
  authentication_key = codes "secret";
  authentication_algorithm = AuthAlgorithm.sha256;
}

accepted_runs : (handle_packet fixed_digest 9 request_bytes open_connection).1 ≡ true
unfolding handle_packet check_packet limit_rate authenticate parse_from_data packet_fields
    read_timestamp read_u32_be to_signed is_valid validate_detailed report validate_version
    validate_mode set_defaults
accepted_runs = refl

rejected_runs : (handle_packet fixed_digest 9 (1 ∷ []) open_connection).1 ≡ false
unfolding handle_packet
rejected_runs = refl

third_runs :
    accepted fixed_digest 9 (request_bytes ∷ request_bytes ∷ request_bytes ∷ []) limited_connection
    ≡ 2
unfolding accepted handle_packet check_packet limit_rate authenticate parse_from_data packet_fields
    read_timestamp read_u32_be to_signed is_valid validate_detailed report validate_version
    validate_mode set_defaults count_request lookup insert
third_runs = refl

handle_packet_iff_example :
    ((handle_packet fixed_digest 9 request_bytes open_connection).1 ≡ true)
    ↔ ((p : _) × Admissible fixed_digest 9 request_bytes open_connection p)
handle_packet_iff_example = handle_packet_iff fixed_digest 9 request_bytes open_connection

authentication_iff_example :
    (validate_authentication fixed_digest keyed_config sample_request request_bytes ≡ true) ↔ (
      (key_material keyed_config ≢ [])
      × ((d : Bytes) × (packet_digest fixed_digest keyed_config request_bytes (codes "sha256:")
            ≡ some d)
          × Marks sample_request d))
unfolding algo_prefix set_defaults
authentication_iff_example =
    authentication_iff fixed_digest keyed_config request_bytes sample_request (codes "sha256:") refl
      refl

-- A connection with a socket that reads one request, one short packet and then the end.
abbrev socket_connection : NtpConnection
socket_connection = new_connection (some 5) (codes "10.0.0.7") set_defaults

abbrev turns : List (ℕ × Option Bytes)
turns = (9, some request_bytes) ∷ (9, some (1 ∷ [])) ∷ (9, some []) ∷ (9, some request_bytes) ∷ []

turns_run : run_length turns ≡ 2
unfolding run_length
turns_run = refl
