-- ===== src/Peers/Runs.antt =====
-- A daemon that queries another one, whose clock is 5 milliseconds ahead.
use simple_ntpd.Common.{
  ℕ, ◌≡◌, ◌≢◌, min, ◌+◌, refl, sym, ap, ◌∙◌, arith, true, Option, none, some, [], ◌∷◌, inr,
}
use mathlib.Core.List.{append-nil}
use simple_ntpd.Common.Int.{pos, ◌+ℤ◌, ◌≤ℤ◌, scale}
use simple_ntpd.Common.Text.{Bytes, codes}
use simple_ntpd.Common.Map.{lookup}
use simple_ntpd.Config.{AuthAlgorithm, set_defaults}
use simple_ntpd.Packet.{NtpPacket}
use simple_ntpd.Packet.Wire.{parse_from_data, serialize_to_data}
use simple_ntpd.Packet.Wire.RoundTrip.{parse-serialize}
use simple_ntpd.Packet.Response.{create_client_request}
use simple_ntpd.Upstream.{Network, send_any, query_upstream_server}
use simple_ntpd.Server.{NtpServer, new_server}
use simple_ntpd.Server.Security.{is_client_allowed, is_rate_limit_exceeded, is_ddos_anomaly}
use simple_ntpd.Server.Process.{Arrival, process_packet}
use simple_ntpd.Server.Process.Liveness.{connection_of}
use simple_ntpd.Connection.Admission.{Admissible}
use simple_ntpd.Peers.{Meets, datagram_of, request-FitsWire, query-process_packet}
use simple_ntpd.Peers.Clocks.{AreReadings}
use simple_ntpd.Peers.Chain.{Near, response_packet-sync_once}
use simple_ntpd.Timestamp.{to_system_time}
use simple_ntpd.Packet.Response.{ResponseClock}
use simple_ntpd.Server.Process.{response_packet}
use simple_ntpd.Upstream.{sync_once, initial_sync}

abbrev no_digest : AuthAlgorithm → Bytes → Option Bytes
no_digest algorithm text = none

abbrev no_address : Bytes → Option ℕ
no_address text = none

abbrev asked : NtpPacket
asked = create_client_request (pos 1000000000)

abbrev arrival : Arrival
arrival = record {
  buffer = serialize_to_data asked;
  client_ip = codes "10.0.0.7";
  client_port = 123;
  minute = 9;
  second = 540;
  clock = record {
    at_receive = pos 1005020000;
    at_transmit = pos 1005030000;
    at_reference = pos 1005040000;
  };
  draw = 0;
  sent = true;
  duration_us = 12;
}

abbrev other_daemon : NtpServer
other_daemon = new_server set_defaults

abbrev path : Network
path = record {
  addresses = some (record { is_inet = true; sent = pos 48 } ∷ []);
  socket_opens = true;
  received = datagram_of (process_packet no_digest no_address arrival other_daemon);
  request_time = pos 1000000000;
  reply_time = pos 1000060000;
}

admitted :
    Admissible no_digest 9
      (serialize_to_data asked)
      (connection_of no_digest no_address arrival other_daemon)
      asked
unfolding lookup set_defaults create_client_request
admitted = record {
  connected = refl;
  parsed =
      ap parse_from_data (sym (append-nil _))
      ∙ parse-serialize asked [] (request-FitsWire (pos 1000000000));
  acceptable = record {
    version_known = inr refl;
    mode_known = omega arith;
    stratum_known = omega arith;
    poll_low = omega arith;
    poll_high = omega arith;
    precision_low = omega arith;
    leap_known = omega arith;
  };
  from_client = refl;
  within_limit = λ e. omega arith;
  authentic = λ e. absurd (cc);
}

meets : Meets no_digest no_address path arrival other_daemon
unfolding is_client_allowed is_rate_limit_exceeded is_ddos_anomaly set_defaults send_any
meets = record {
  sent_to = record { is_inet = true; sent = pos 48 } ∷ [];
  resolved = refl;
  opens = refl;
  sends = refl;
  arrives = refl;
  served = record {
    allowed = refl;
    within_rate = refl;
    calm = refl;
    admitted = admitted;
    delivered = refl;
  };
  uncorrected = refl;
  stratum_low = omega arith;
  id_bytes = omega arith;
  carried = refl;
}

readings : AreReadings 1000000000 1005020000 1005030000 1000060000 (pos 5000000) 20000 30000
readings = record {
  in_era_1 = omega arith;
  in_era_2 = omega arith;
  in_era_3 = omega arith;
  in_era_4 = omega arith;
  outward = omega arith;
  homeward = omega arith;
}

query-process_packet_example :
    let result = query_upstream_server path (codes "b") in
    (result.success ≡ true)
    × (result.stratum ≡ set_defaults.stratum)
    × (scale result.offset_us 2000 ≤ℤ scale (pos 5000000) 2 +ℤ pos 54000)
    × (scale (pos 5000000) 2 ≤ℤ scale result.offset_us 2000 +ℤ pos 54000)
    × (scale result.delay_us 1000 ≤ℤ pos 52000)
    × (pos 50000 ≤ℤ scale result.delay_us 1000 +ℤ pos 3000)
query-process_packet_example =
    query-process_packet no_digest no_address path arrival other_daemon (codes "b") meets 1000000000
      1005020000 1005030000 1000060000 (pos 5000000) 20000 30000 (refl, refl, refl, refl) readings

default_stratum : set_defaults.stratum ≢ 0
unfolding set_defaults
default_stratum e = absurd (omega (arith, e))

-- A second after the query the daemon is asked itself.
abbrev later : ResponseClock
later = record { at_receive = pos 2000000000; at_transmit = pos 2000010000; at_reference = pos 0 }

response_packet-sync_once_example :
    let learnt = (sync_once ((codes "b", path) ∷ []) (pos 0) initial_sync).0 in
    let response = response_packet (some learnt) set_defaults later asked in
    Near 2000000000 (pos 5000000) 50000 (to_system_time response.receive_ts)
    × (response.stratum ≡ min (set_defaults.stratum + 1) 15)
response_packet-sync_once_example =
    response_packet-sync_once no_digest no_address path arrival other_daemon (codes "b") meets
      1000000000 1005020000 1005030000 1000060000 (pos 5000000) 20000 30000 (refl, refl, refl, refl)
      readings initial_sync (pos 0) set_defaults later asked 2000000000 refl (omega arith)
      (omega arith) (omega arith) default_stratum
