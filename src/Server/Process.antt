-- ===== src/Server/Process.antt =====
-- `processPacket` of src/simple-ntpd/core/server.cpp, from the checks to the statistics.
pub mod Accounting
pub mod Reply
pub mod Answer
pub mod Table
pub mod Malformed
pub mod Liveness
use simple_ntpd.Common.{
  ℕ, ◌+◌, Bool, true, false, not, ◌&&◌, Option, none, some, List, [], ◌∷◌, ltb, if◌then◌else◌,
  is_empty, length,
}
use simple_ntpd.Common.Int.{ℤ, pos, negsuc, ◌+ℤ◌, scale}
use simple_ntpd.Common.Text.{Bytes, equal}
use simple_ntpd.Common.Result.{Result, ok, exception, ◌>>=◌}
use simple_ntpd.Timestamp.{NtpTimestamp, from_system_time, to_system_time}
use simple_ntpd.Config.{NtpConfig, AuthAlgorithm}
use simple_ntpd.Packet.{NtpPacket}
use simple_ntpd.Packet.Wire.{parse_from_data, serialize_to_data}
use simple_ntpd.Packet.Response.{ResponseClock, create_server_response}
use simple_ntpd.Connection.{NtpConnection, add_u64, handle_packet}
use simple_ntpd.Upstream.{SyncState, effective_stratum}
use simple_ntpd.Server.{NtpServer, NtpServerStats, count_error}
use simple_ntpd.Server.Security.{is_client_allowed, is_rate_limit_exceeded, is_ddos_anomaly}
use simple_ntpd.Server.Connections.{client_key, get_or_create_connection, put_connection}
use simple_ntpd.Server.Upstreams.{
  select_upstream_server, apply_dynamic_stratum, effective_reference_id,
}

-- A datagram with its sender, and what the clocks, the random generator and `sendto` answer while it
-- is processed.
pub record Arrival : Type 0 where
  pub buffer : Bytes
  pub client_ip : Bytes
  pub client_port : ℕ
  pub minute : ℕ
  pub second : ℕ
  pub clock : ResponseClock
  pub draw : ℕ
  pub sent : Bool
  pub duration_us : ℕ

-- `response_stratum`
unfoldable pub response_stratum : Option SyncState → ℕ → ℕ
response_stratum none configured = configured
response_stratum (some sync) configured =
    if sync.synced then effective_stratum sync configured else configured

-- A response's time moved by `offset` microseconds.
unfoldable pub shift_time : ℤ → NtpTimestamp → NtpTimestamp
shift_time offset t = from_system_time (to_system_time t +ℤ scale offset 1000)

unfoldable pub is_zero : ℤ → Bool
is_zero (pos n) = not (ltb 0 n)
is_zero (negsuc n) = false

-- The receive and transmit times are moved by the clock offset, if there is one.
unfoldable pub correct_times : Option SyncState → NtpPacket → NtpPacket
unfolding is_zero
correct_times none p = p
correct_times (some sync) p = if is_zero sync.clock_offset_us then p else record p {
  receive_ts = shift_time sync.clock_offset_us p.receive_ts;
  transmit_ts = shift_time sync.clock_offset_us p.transmit_ts;
}

-- `response_packet` as it is sent.
unfoldable pub response_packet :
    Option SyncState → NtpConfig → ResponseClock → NtpPacket → NtpPacket
response_packet upstream_sync config clock request = correct_times upstream_sync (
    create_server_response request (response_stratum upstream_sync config.stratum)
      (effective_reference_id config) clock)

-- The first entry that equals `name` is erased, if there is one.
unfoldable pub erase : Bytes → List Bytes → List Bytes
erase name [] = []
erase name (x ∷ xs) = if equal x name then xs else x ∷ erase name xs

-- `sendto` failed.
unfoldable pub send_failed : Bytes → NtpServer → NtpServer
unfolding erase
send_failed selected s =
    if s.config.enable_upstream_failover && not (is_empty selected)
    then record (count_error s) { healthy_upstreams = erase selected s.healthy_upstreams }
    else count_error s

abbrev pub count_response : ℕ → NtpServer → NtpServer
count_response size s = record s {
  stats = record s.stats {
    total_requests = add_u64 s.stats.total_requests 1;
    total_bytes_transferred = add_u64 s.stats.total_bytes_transferred size;
    total_responses = add_u64 s.stats.total_responses 1;
  };
}

-- The processing times at the end of `processPacket`.
unfoldable pub count_time : ℕ → NtpServer → NtpServer
count_time dur_us s = record s {
  stats = record s.stats {
    total_request_processing_time_us = add_u64 s.stats.total_request_processing_time_us dur_us;
    processed_request_count = add_u64 s.stats.processed_request_count 1;
    max_request_processing_time_us =
        if ltb s.stats.max_request_processing_time_us dur_us
        then dur_us
        else s.stats.max_request_processing_time_us;
    min_request_processing_time_us =
        if ltb dur_us s.stats.min_request_processing_time_us
        then dur_us
        else s.stats.min_request_processing_time_us;
  };
}

-- The response is given to `sendto`; the second result is the datagram sent.
unfoldable pub deliver : Arrival → NtpPacket → Bytes → NtpServer → NtpServer × Option Bytes
deliver a response selected s = if not a.sent then (send_failed selected s, none) else (
  count_time a.duration_us (count_response (length a.buffer) s),
  some (serialize_to_data response),
)

-- The branch where `handlePacket` accepts.
unfoldable pub respond : Arrival → Option NtpPacket → NtpServer → NtpServer × Option Bytes
respond a none s = (count_error s, none)
respond a (some request) s =
    let (s', selected) = select_upstream_server a.draw (apply_dynamic_stratum s) in
    deliver a (response_packet s.upstream_sync s.config a.clock request) selected s'

module _ (digest : AuthAlgorithm → Bytes → Option Bytes) (inet_pton : Bytes → Option ℕ)
    (a : Arrival) where
  -- From the connection on.
  handle : NtpConnection → NtpServer → NtpServer × Option Bytes
  handle connection s =
      let (connection', accepted) = handle_packet digest a.minute a.buffer connection in
      let s' = put_connection (client_key a.client_ip a.client_port) connection' s in
      if accepted
      then respond a (parse_from_data a.buffer) s'
      else (count_time a.duration_us (count_error s'), none)

  serve : NtpServer → Result (NtpServer × Option Bytes)
  serve s = do
    (s', connection) ← get_or_create_connection inet_pton a.client_ip a.client_port s
    ok (handle connection s')

  check_anomaly : NtpServer → Result (NtpServer × Option Bytes)
  check_anomaly s =
      let (buckets, anomaly) =
        is_ddos_anomaly s.config a.second a.client_ip s.request_second_buckets in
      let s' = record s { request_second_buckets = buckets } in
      if anomaly && s.config.enable_graceful_degradation
      then ok (count_error s', none)
      else serve s'

  check_rate : NtpServer → Result (NtpServer × Option Bytes)
  check_rate s =
      let (buckets, exceeded) =
        is_rate_limit_exceeded s.config a.minute a.client_ip s.connection_rate_buckets in
      let s' = record s { connection_rate_buckets = buckets } in
      if exceeded then ok (count_error s', none) else check_anomaly s'

  -- `processPacket`: the new state and the datagram sent to the client, if any.
  unfoldable pub process_packet : NtpServer → Result (NtpServer × Option Bytes)
  unfolding check_rate check_anomaly serve handle
  process_packet s = do
    allowed ← is_client_allowed inet_pton s.config a.client_ip
    if allowed then check_rate s else ok (count_error s, none)
