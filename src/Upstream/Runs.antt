-- ===== src/Upstream/Runs.antt =====
-- Runs of a query and of a round of queries.
use simple_ntpd.Common.{◌≡◌, refl, true, false, none, some, List, [], ◌∷◌}
use simple_ntpd.Common.Int.{pos, to_signed, to_unsigned}
use simple_ntpd.Common.Text.{Bytes, codes}
use simple_ntpd.Packet.Samples.{sample_response}
use simple_ntpd.Packet.Wire.{
  read_u32_be, octet, first_byte_of, read_timestamp, packet_fields, parse_from_data,
  serialize_to_data,
}
use simple_ntpd.Packet.Validation.{
  is_valid, validate_detailed, report, validate_version, validate_mode,
}
use simple_ntpd.Packet.Response.{create_client_request}
use simple_ntpd.Upstream.{
  Network, SyncState, initial_sync, send_any, accept_response, send_request, receive_response,
  query_upstream_server, sync_once,
}
use simple_ntpd.Upstream.Manager.{Round, Pass}
use simple_ntpd.Upstream.Best.{Learns, sync_once-Learns}

-- One address that takes the 48 bytes, and `sample_response` as the answer.
abbrev answered_network : Network
answered_network = record {
  addresses = some (record { is_inet = true; sent = pos 48 } ∷ []);
  socket_opens = true;
  received = some (serialize_to_data sample_response);
  request_time = pos 1000000000;
  reply_time = pos 2000000000;
}

abbrev dead_network : Network
dead_network = record answered_network { received = none }

success_runs : (query_upstream_server answered_network (codes "a")).success ≡ true
unfolding query_upstream_server send_request receive_response send_any accept_response
    create_client_request serialize_to_data first_byte_of octet parse_from_data packet_fields
    read_timestamp read_u32_be is_valid validate_detailed report validate_version validate_mode
    to_signed to_unsigned
success_runs = refl

failure_runs : (query_upstream_server dead_network (codes "a")).success ≡ false
unfolding query_upstream_server send_request receive_response send_any create_client_request
    serialize_to_data
failure_runs = refl

abbrev servers : List (Bytes × Network)
servers = (codes "a", dead_network) ∷ (codes "b", answered_network) ∷ []

sync_once-Learns_example :
    let (s', r) = sync_once servers (pos 7) initial_sync in Learns servers initial_sync s' r
sync_once-Learns_example = sync_once-Learns servers (pos 7) initial_sync

abbrev synced_state : SyncState
synced_state = record initial_sync { synced = true; upstream_stratum = 15 }

abbrev learning : Round
learning = record { servers = servers; now = pos 7 }

abbrev silent : Round
silent = record { servers = (codes "a", dead_network) ∷ []; now = pos 9 }

abbrev up_with : Round → Pass
up_with r = record { up_at_test = true; up_after_pause = true; round = r }

abbrev down : Pass
down = record { up_at_test = true; up_after_pause = false; round = silent }
