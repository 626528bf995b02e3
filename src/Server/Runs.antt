-- ===== src/Server/Runs.antt =====
-- Runs of the server on a request, and of its parts.
use simple_ntpd.Common.{
  ℕ, ◌-◌, ◌≤◌, ◌<◌, ◌≡◌, ◌⊎◌, ◌↔◌, refl, arith, min, true, false, Option, none, some, [], ◌∷◌, All,
}
use simple_ntpd.Common.Int.{pos, to_signed}
use simple_ntpd.Common.Text.{Bytes, codes, equal, find, stoi, read_number, skip_space, read_digits}
use simple_ntpd.Common.Result.{Result, ok, exception}
use simple_ntpd.Common.Map.{lookup, insert, bytes_eq}
use simple_ntpd.Config.{NtpConfig, AuthAlgorithm, set_defaults}
use simple_ntpd.Config.Validate.{validate, validate_detailed, run_checks}
use simple_ntpd.Packet.{NtpPacket}
use simple_ntpd.Connection.Admission.{Admissible, handle_packet_iff}
use simple_ntpd.Packet.Samples.{request_bytes}
use simple_ntpd.Packet.Wire.{
  read_u32_be, read_timestamp, packet_fields, parse_from_data, serialize_to_data,
}
use simple_ntpd.Packet.Validation.{
  is_valid, validate_detailed as packet_report, report, validate_version, validate_mode,
}
use simple_ntpd.Connection.{handle_packet}
use simple_ntpd.Server.{NtpServer, new_server}
use simple_ntpd.Server.Security.{
  is_client_allowed, tick_bucket, is_rate_limit_exceeded, is_ddos_anomaly,
}
use simple_ntpd.Server.Security.Acl.{LetIn, is_client_allowed_iff, spoil}
use simple_ntpd.Server.Security.Window.{window_count, passed, passed_eq}
use simple_ntpd.Server.Connections.{
  get_or_create_connection, found_or_created, create_connection, cleanup_connections,
}
use simple_ntpd.Server.Upstreams.Selection.{cycle}
use simple_ntpd.Server.Process.{Arrival, response_packet, deliver, respond, process_packet}
use simple_ntpd.Server.Process.Accounting.{Counted, counters, process_packet-Counted}
use simple_ntpd.Server.Process.Reply.{Answers, process_packet-Answers}
use simple_ntpd.Server.Process.Answer.{IsReply, process_packet-IsReply}
use simple_ntpd.Server.Process.Liveness.{connection_of, IsServed, process_packet-IsServed}
use simple_ntpd.Server.Process.Malformed.{malformed_block_throws}
use simple_ntpd.Server.Lifecycle.{SocketAnswers, secure_controls_ready, open_socket, start}
use simple_ntpd.Server.Lifetime.{
  Run, packet, done, then_, IsSound, Remembers, reachable-IsSound, reachable-Remembers,
}

abbrev no_digest : AuthAlgorithm → Bytes → Option Bytes
no_digest algorithm text = none

abbrev no_address : Bytes → Option ℕ
no_address text = none

abbrev arrival : Arrival
arrival = record {
  buffer = request_bytes;
  client_ip = codes "10.0.0.7";
  client_port = 123;
  minute = 9;
  second = 540;
  clock = record { at_receive = pos 0; at_transmit = pos 1000; at_reference = pos 2000 };
  draw = 0;
  sent = true;
  duration_us = 12;
}

abbrev start_server : NtpServer
start_server = new_server set_defaults

abbrev value_of : NtpServer → Result (NtpServer × Option Bytes) → NtpServer × Option Bytes
value_of s (ok r) = r
value_of s exception = (s, none)

abbrev reply_of : Option Bytes → Bytes
reply_of none = []
reply_of (some d) = d

abbrev after : NtpServer × Option Bytes
after = value_of start_server (process_packet no_digest no_address arrival start_server)

served_runs : process_packet no_digest no_address arrival start_server ≡ ok after
unfolding process_packet is_client_allowed is_rate_limit_exceeded is_ddos_anomaly
    get_or_create_connection found_or_created create_connection lookup insert set_defaults
served_runs = refl

sent_runs : after.1 ≡ some (reply_of after.1)
unfolding process_packet is_client_allowed is_rate_limit_exceeded is_ddos_anomaly
    get_or_create_connection found_or_created create_connection lookup insert set_defaults
    handle_packet respond deliver parse_from_data packet_fields read_timestamp read_u32_be is_valid
    packet_report report validate_version validate_mode to_signed
sent_runs = refl

default_id-All : All (λ (b : ℕ). b < 256) set_defaults.reference_id
unfolding set_defaults
default_id-All = omega arith

default_stratum-le : set_defaults.stratum ≤ 15
unfolding set_defaults
default_stratum-le = omega arith

process_packet-IsReply_example : IsReply request_bytes (reply_of after.1)
process_packet-IsReply_example =
    process_packet-IsReply no_digest no_address arrival start_server after (reply_of after.1)
      default_stratum-le default_id-All (omega arith) served_runs sent_runs

process_packet-Answers_example :
    (is_client_allowed no_address set_defaults (codes "10.0.0.7") ≡ ok true)
    × Answers none set_defaults arrival (reply_of after.1)
process_packet-Answers_example =
    process_packet-Answers no_digest no_address arrival start_server after (reply_of after.1)
      served_runs sent_runs

accepted_runs :
    (handle_packet no_digest 9 request_bytes
      (connection_of no_digest no_address arrival start_server)).1
    ≡ true
unfolding lookup set_defaults handle_packet parse_from_data packet_fields read_timestamp read_u32_be
    is_valid packet_report report validate_version validate_mode to_signed
accepted_runs = refl

admission :
    (p : NtpPacket) × Admissible no_digest 9 request_bytes
      (connection_of no_digest no_address arrival start_server)
      p
admission = (handle_packet_iff no_digest 9 request_bytes _).0 accepted_runs

served : IsServed no_digest no_address arrival start_server admission.0
unfolding is_client_allowed is_rate_limit_exceeded is_ddos_anomaly set_defaults
served = record {
  allowed = refl;
  within_rate = refl;
  calm = refl;
  admitted = admission.1;
  delivered = refl;
}

process_packet-IsServed_example :
    (t : NtpServer) × (process_packet no_digest no_address arrival start_server
      ≡ ok (
        t,
        some (serialize_to_data (response_packet none set_defaults arrival.clock admission.0)),
      ))
process_packet-IsServed_example =
    process_packet-IsServed no_digest no_address arrival start_server admission.0 served

process_packet-Counted_example : Counted 48 (counters start_server) after
process_packet-Counted_example =
    process_packet-Counted no_digest no_address arrival start_server after served_runs

one_packet : Run no_digest no_address start_server after.0
one_packet = then_ done (packet arrival after served_runs)

reachable-IsSound_example : IsSound no_digest no_address after.0
reachable-IsSound_example = reachable-IsSound no_digest no_address set_defaults after.0 one_packet

reachable-Remembers_example :
    Remembers no_digest no_address start_server after.0 × (cleanup_connections after.0 ≡ after.0)
reachable-Remembers_example =
    reachable-Remembers no_digest no_address set_defaults start_server after.0 done one_packet

-- One client denied, and no list of allowed ones.
abbrev acl_config : NtpConfig
acl_config = record set_defaults {
  enable_acl = true;
  denied_clients = codes "10.0.0.8" ∷ [];
  allowed_clients = [];
}

is_client_allowed_iff_example :
    (is_client_allowed no_address acl_config (codes "10.0.0.7") ≡ ok true) ↔ (
      ((acl_config.enable_acl ≡ false) × (acl_config.restrict_queries ≡ false))
      ⊎ (((acl_config.enable_acl ≡ true) ⊎ (acl_config.restrict_queries ≡ true))
          × LetIn no_address (codes "10.0.0.7") acl_config))
is_client_allowed_iff_example = is_client_allowed_iff no_address (codes "10.0.0.7") acl_config

-- Two of the limit of three are used up.
passed_eq_example :
    passed 3 9 (codes "a") 5 ((codes "a", (9, 2)) ∷ [])
    ≡ min 5 (3 - window_count 9 (codes "a") ((codes "a", (9, 2)) ∷ []))
unfolding lookup equal
passed_eq_example = passed_eq 3 9 (codes "a") 5 ((codes "a", (9, 2)) ∷ []) (omega arith)

passed_runs : passed 3 9 (codes "a") 5 ((codes "a", (9, 2)) ∷ []) ≡ 1
unfolding passed tick_bucket lookup insert equal
passed_runs = refl

-- Three upstreams, from the last.
cycle_runs :
    cycle 2 4 (codes "a" ∷ codes "b" ∷ codes "c" ∷ [])
    ≡ codes "c" ∷ codes "a" ∷ codes "b" ∷ codes "c" ∷ []
unfolding cycle
cycle_runs = refl

defaults_valid : validate set_defaults ≡ true
unfolding validate validate_detailed run_checks set_defaults
defaults_valid = refl

malformed_block_throws_example :
    let spoilt = spoil (codes "10.0.0.0/x") set_defaults in
    (validate spoilt ≡ true)
    × (process_packet no_digest no_address arrival (record start_server { config = spoilt })
        ≡ exception)
unfolding find stoi read_number skip_space read_digits
malformed_block_throws_example =
    malformed_block_throws no_digest no_address arrival start_server (codes "10.0.0.0/x") 8
      defaults_valid refl refl

abbrev good_answers : SocketAnswers
good_answers = record { opened = some 4; address_known = true; bound = true }

abbrev bad_answers : SocketAnswers
bad_answers = record good_answers { bound = false }

started_runs : (start good_answers start_server).1 ≡ true
unfolding start open_socket secure_controls_ready set_defaults
started_runs = refl

not_started_runs : (start bad_answers start_server).1 ≡ false
unfolding start open_socket secure_controls_ready set_defaults
not_started_runs = refl
