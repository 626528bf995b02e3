-- ===== src/Peers.antt =====
-- One daemon that queries another: `queryUpstreamServer` (src/simple-ntpd/core/upstream_sync.cpp) of the
-- one meets `processPacket` (src/simple-ntpd/core/server.cpp) of the other.
pub mod Clocks
pub mod Chain
mod Runs
use simple_ntpd.Common.{
  ℕ, ◌+◌, ◌*◌, ◌^◌, ◌≤◌, ◌<◌, ◌≡◌, refl, sym, ap, subst, ◌∙◌, arith, Bool, true, false, not, Option,
  none, some, List, [], ◌∷◌, ◌++◌, All, if◌then◌else◌, if-true, if-false, length,
}
use mathlib.Core.List.{append-nil}
use simple_ntpd.Common.Int.{ℤ, pos, ◌+ℤ◌, ◌≤ℤ◌, scale}
use simple_ntpd.Common.Text.{Bytes}
use simple_ntpd.Common.Result.{Result, ok, exception}
use simple_ntpd.Timestamp.{NtpTimestamp, IsTimestamp, zero_timestamp, from_system_time}
use simple_ntpd.Timestamp.Conversion.{from_system_time-IsTimestamp}
use simple_ntpd.Exchange.{calculate_offset, calculate_round_trip_delay}
use simple_ntpd.Config.{NtpConfig, AuthAlgorithm}
use simple_ntpd.Packet.{NtpPacket, default_packet, FitsWire, IsByte}
use simple_ntpd.Packet.Wire.{parse_from_data, serialize_to_data}
use simple_ntpd.Packet.Wire.RoundTrip.{parse-serialize, length-serialize_to_data}
use simple_ntpd.Packet.Validation.{is_valid}
use simple_ntpd.Packet.Validation.Laws.{is_valid_iff}
use simple_ntpd.Packet.Response.{ResponseClock, create_client_request, create_server_response}
use simple_ntpd.Upstream.{
  SyncState, UpstreamSyncResult, Network, Address, send_any, accept_response, query_upstream_server,
}
use simple_ntpd.Upstream.Query.{query-received}
use simple_ntpd.Server.{NtpServer}
use simple_ntpd.Server.Process.{
  Arrival, response_packet, correct_times, response_stratum, process_packet,
}
use simple_ntpd.Server.Process.Answer.{IsResponse, response_packet-IsResponse}
use simple_ntpd.Server.Process.Liveness.{IsServed, process_packet-IsServed}
use simple_ntpd.Peers.Clocks.{AreReadings, offset_of, delay_of, exchange_bounds}

-- The datagram that is sent, if any.
abbrev pub datagram_of : Result (NtpServer × Option Bytes) → Option Bytes
datagram_of exception = none
datagram_of (ok (s, d)) = d

-- One query and its way to the server and back. The daemon that asks sends its request, the server
-- gets and serves it, its own clock is not corrected, and the datagram that it sends arrives. The
-- readings of the two clocks are those of an exchange.
pub record Meets (digest : AuthAlgorithm → Bytes → Option Bytes) (inet_pton : Bytes → Option ℕ)
    (net : Network) (a : Arrival) (s : NtpServer) : Type 0 where
  pub sent_to : List Address
  pub resolved : net.addresses ≡ some sent_to
  pub opens : net.socket_opens ≡ true
  pub sends : send_any 48 sent_to ≡ true
  pub arrives : a.buffer ≡ serialize_to_data (create_client_request net.request_time)
  pub served : IsServed digest inet_pton a s (create_client_request net.request_time)
  pub uncorrected : s.upstream_sync ≡ none
  pub stratum_low : s.config.stratum ≤ 15
  pub id_bytes : All IsByte s.config.reference_id
  pub carried : net.received ≡ datagram_of (process_packet digest inet_pton a s)

zero-IsTimestamp : IsTimestamp zero_timestamp
zero-IsTimestamp = record { seconds_bound = omega arith; fraction_bound = omega arith }

pub request-FitsWire : (now : ℤ) → FitsWire (create_client_request now)
unfolding create_client_request
request-FitsWire now = record {
  leap_bound = omega arith;
  version_bound = omega arith;
  mode_bound = omega arith;
  stratum_bound = omega arith;
  poll_bound = omega arith;
  precision_bound = omega arith;
  root_delay_bound = omega arith;
  root_dispersion_bound = omega arith;
  reference_id_bound = omega arith;
  reference_fits = zero-IsTimestamp;
  originate_fits = zero-IsTimestamp;
  receive_fits = zero-IsTimestamp;
  transmit_fits = from_system_time-IsTimestamp now;
}

-- A response that a client takes is accepted, and the result is computed from it.
accept-IsResponse :
    (host : Bytes) (t1 t4 : NtpTimestamp) (request response : NtpPacket)
    → IsResponse request response
    → accept_response host t1 t4 (some response) ≡ record {
      success = true;
      server = host;
      offset_us = calculate_offset t1 response.receive_ts response.transmit_ts t4;
      delay_us = calculate_round_trip_delay t1 response.receive_ts response.transmit_ts t4;
      stratum = response.stratum;
    }
unfolding accept_response
accept-IsResponse host t1 t4 request response r =
    ground (arith, (is_valid_iff response).0.1 r.acceptable, r.from_server)

-- The four readings that the two daemons make.
abbrev pub Reads : Network → Arrival → ℕ → ℕ → ℕ → ℕ → Type 0
Reads net a n1 n2 n3 n4 =
    (net.request_time ≡ pos n1)
    × (a.clock.at_receive ≡ pos n2)
    × (a.clock.at_transmit ≡ pos n3)
    × (net.reply_time ≡ pos n4)

-- The times and the stratum in a response of a server that is not synchronised itself.
plain_response :
    (sync : Option SyncState) (config : NtpConfig) (clock : ResponseClock) (request : NtpPacket)
    → sync ≡ none
    → let response = response_packet sync config clock request in
      (response.receive_ts ≡ from_system_time clock.at_receive)
      × (response.transmit_ts ≡ from_system_time clock.at_transmit)
      × (response.stratum ≡ config.stratum)
unfolding response_packet correct_times response_stratum create_server_response
plain_response none config clock request e = (refl, refl, refl)
plain_response (some sync) config clock request e = absurd (cc)

module _ (digest : AuthAlgorithm → Bytes → Option Bytes) (inet_pton : Bytes → Option ℕ)
    (net : Network) (a : Arrival) (s : NtpServer) (host : Bytes)
    (m : Meets digest inet_pton net a s) where
  abbrev request : NtpPacket
  request = create_client_request net.request_time

  abbrev response : NtpPacket
  response = response_packet s.upstream_sync s.config a.clock request

  query_result : query_upstream_server net host ≡ record {
    success = true;
    server = host;
    offset_us =
        calculate_offset
          (from_system_time net.request_time)
          response.receive_ts
          response.transmit_ts
          (from_system_time net.reply_time);
    delay_us =
        calculate_round_trip_delay
          (from_system_time net.request_time)
          response.receive_ts
          response.transmit_ts
          (from_system_time net.reply_time);
    stratum = response.stratum;
  }
  query_result =
      let (t, answered) = process_packet-IsServed digest inet_pton a s request m.served in
      let good =
        response_packet-IsResponse s.upstream_sync s.config a.clock request
          (request-FitsWire net.request_time) m.stratum_low m.id_bytes in
      query-received net host m.sent_to response m.resolved m.opens m.sends
        (m.carried ∙ ap datagram_of answered) good.fits
      ∙ accept-IsResponse host (from_system_time net.request_time) (from_system_time net.reply_time)
          request response good

  module _ (n1 n2 n3 n4 : ℕ) (theta : ℤ) (out back : ℕ) (reads : Reads net a n1 n2 n3 n4)
      (r : AreReadings n1 n2 n3 n4 theta out back) where
    read_result :
        let result = query_upstream_server net host in
        (result.success ≡ true)
        × (result.stratum ≡ s.config.stratum)
        × (result.offset_us ≡ offset_of n1 n2 n3 n4)
        × (result.delay_us ≡ delay_of n1 n2 n3 n4)
    read_result =
        let (c1, c2, c3, c4) = reads in
        let (received, transmitted, stratum) =
          plain_response s.upstream_sync s.config a.clock request m.uncorrected in
        let at_1 = ap from_system_time c1 in
        let at_2 = received ∙ ap from_system_time c2 in
        let at_3 = transmitted ∙ ap from_system_time c3 in
        let at_4 = ap from_system_time c4 in
        (
          ap (λ (q : UpstreamSyncResult). q.success) query_result,
          ap (λ (q : UpstreamSyncResult). q.stratum) query_result ∙ stratum,
          ap (λ (q : UpstreamSyncResult). q.offset_us) query_result
              ∙ (λ j. calculate_offset (at_1 j) (at_2 j) (at_3 j) (at_4 j)),
          ap (λ (q : UpstreamSyncResult). q.delay_us) query_result
              ∙ (λ j. calculate_round_trip_delay (at_1 j) (at_2 j) (at_3 j) (at_4 j)),
        )

    -- If a daemon's query is sent and reaches another daemon that serves it, has no
    -- synchronisation with upstreams, a configured stratum of at most 15 and a reference
    -- identifier of bytes, the answer arrives, and all four readings of the clocks lie between
    -- 1970 and the end of the NTP era in 2036, then the query succeeds with that daemon's
    -- stratum, and with the second clock theta nanoseconds ahead and a path of out and back
    -- nanoseconds, twice the offset in nanoseconds differs from twice theta by at most out + back
    -- + 4000, and the delay is at most 2000 nanoseconds above and 3000 below out + back.
    pub query-process_packet :
        let result = query_upstream_server net host in
        (result.success ≡ true)
        × (result.stratum ≡ s.config.stratum)
        × (scale result.offset_us 2000 ≤ℤ scale theta 2 +ℤ pos (out + back + 4000))
        × (scale theta 2 ≤ℤ scale result.offset_us 2000 +ℤ pos (out + back + 4000))
        × (scale result.delay_us 1000 ≤ℤ pos (out + back + 2000))
        × (pos (out + back) ≤ℤ scale result.delay_us 1000 +ℤ pos 3000)
    query-process_packet =
        let (success, stratum, offset, delay) = read_result in
        let (o1, o2, d1, d2) = exchange_bounds n1 n2 n3 n4 theta out back r in
        (
          success,
          stratum,
          subst (λ (o : ℤ). scale o 2000 ≤ℤ scale theta 2 +ℤ pos (out + back + 4000)) (sym offset)
              o1,
          subst (λ (o : ℤ). scale theta 2 ≤ℤ scale o 2000 +ℤ pos (out + back + 4000)) (sym offset)
              o2,
          subst (λ (d : ℤ). scale d 1000 ≤ℤ pos (out + back + 2000)) (sym delay) d1,
          subst (λ (d : ℤ). pos (out + back) ≤ℤ scale d 1000 +ℤ pos 3000) (sym delay) d2,
        )
