-- ===== src/Server/Process/Answer.antt =====
-- What the client reads in the datagram that `processPacket` sends.
use simple_ntpd.Common.{
  ℕ, ◌≤◌, ◌≡◌, refl, sym, ap, ◌∙◌, arith, not, Option, none, some, [], length, if-both, All,
  is_empty, map,
}
use mathlib.Core.List.{append-nil}
use simple_ntpd.Common.Text.{Bytes, codes, equal, to_lower}
use simple_ntpd.Common.Result.{ok}
use simple_ntpd.Timestamp.Conversion.{from_system_time-IsTimestamp}
use simple_ntpd.Config.{NtpConfig, AuthAlgorithm}
use simple_ntpd.Packet.{NtpPacket, FitsWire, IsByte}
use simple_ntpd.Packet.Wire.{parse_from_data, serialize_to_data}
use simple_ntpd.Packet.Wire.RoundTrip.{length-serialize_to_data, parse-serialize}
use simple_ntpd.Packet.Wire.Range.{parse-FitsWire, parse_from_data-length}
use simple_ntpd.Packet.Validation.Laws.{IsAcceptable}
use simple_ntpd.Packet.Response.{ResponseClock, create_server_response}
use simple_ntpd.Packet.Response.Laws.{response-FitsWire, response-IsAcceptable}
use simple_ntpd.Upstream.{SyncState}
use simple_ntpd.Upstream.Best.{effective_stratum-le}
use simple_ntpd.Server.{NtpServer}
use simple_ntpd.Server.Upstreams.{effective_reference_id}
use simple_ntpd.Server.Process.{
  Arrival, response_stratum, shift_time, is_zero, correct_times, response_packet, process_packet,
}
use simple_ntpd.Server.Process.Reply.{process_packet-Answers}

effective_reference_id-IsByte :
    (config : NtpConfig)
    → All IsByte config.reference_id
    → All IsByte (effective_reference_id config)
unfolding effective_reference_id
effective_reference_id-IsByte config h =
    let source = map to_lower config.reference_clock_source in
    if-both (All IsByte) (not config.enable_reference_clock_support) _ _ h (
      if-both (All IsByte) (equal source (codes "gps")) _ _ (omega arith) (
        if-both (All IsByte) (equal source (codes "atomic")) _ _ (omega arith) (
          if-both (All IsByte) (equal source (codes "hardware")) _ _ (omega arith)
            (if-both (All IsByte) (is_empty config.reference_id) _ _ (omega arith) h))))

response_stratum-le :
    (upstream_sync : Option SyncState) (configured : ℕ)
    → configured ≤ 15
    → response_stratum upstream_sync configured ≤ 15
unfolding response_stratum
response_stratum-le none configured h = h
response_stratum-le (some sync) configured h =
    if-both (λ (n : ℕ). n ≤ 15) sync.synced _ _ (effective_stratum-le sync configured h) h

-- A packet that a client takes as the answer to its request.
pub record IsResponse (request p : NtpPacket) : Type 0 where
  pub fits : FitsWire p
  pub acceptable : IsAcceptable p
  pub from_server : p.mode ≡ 4
  pub current_version : p.version ≡ 4
  pub echoes : p.originate_ts ≡ request.transmit_ts

correct_times-IsResponse :
    (upstream_sync : Option SyncState) (request p : NtpPacket)
    → IsResponse request p
    → IsResponse request (correct_times upstream_sync p)
unfolding correct_times shift_time
correct_times-IsResponse none request p r = r
correct_times-IsResponse (some sync) request p r =
    if-both (IsResponse request) (is_zero sync.clock_offset_us) p
      (record p {
        receive_ts = shift_time sync.clock_offset_us p.receive_ts;
        transmit_ts = shift_time sync.clock_offset_us p.transmit_ts;
      })
      r
      (record {
        fits = record {
          leap_bound = r.fits.leap_bound;
          version_bound = r.fits.version_bound;
          mode_bound = r.fits.mode_bound;
          stratum_bound = r.fits.stratum_bound;
          poll_bound = r.fits.poll_bound;
          precision_bound = r.fits.precision_bound;
          root_delay_bound = r.fits.root_delay_bound;
          root_dispersion_bound = r.fits.root_dispersion_bound;
          reference_id_bound = r.fits.reference_id_bound;
          reference_fits = r.fits.reference_fits;
          originate_fits = r.fits.originate_fits;
          receive_fits = from_system_time-IsTimestamp _;
          transmit_fits = from_system_time-IsTimestamp _;
        };
        acceptable = record {
          version_known = r.acceptable.version_known;
          mode_known = r.acceptable.mode_known;
          stratum_known = r.acceptable.stratum_known;
          poll_low = r.acceptable.poll_low;
          poll_high = r.acceptable.poll_high;
          precision_low = r.acceptable.precision_low;
          leap_known = r.acceptable.leap_known;
        };
        from_server = r.from_server;
        current_version = r.current_version;
        echoes = r.echoes;
      })

created-IsResponse :
    (request : NtpPacket) (stratum : ℕ) (id : Bytes) (clock : ResponseClock)
    → FitsWire request
    → All IsByte id
    → stratum ≤ 15
    → IsResponse request (create_server_response request stratum id clock)
unfolding create_server_response
created-IsResponse request stratum id clock f b h = record {
  fits = response-FitsWire request stratum id clock f b (omega arith);
  acceptable = response-IsAcceptable request stratum id clock h;
  from_server = refl;
  current_version = refl;
  echoes = refl;
}

pub response_packet-IsResponse :
    (upstream_sync : Option SyncState) (config : NtpConfig) (clock : ResponseClock)
    (request : NtpPacket)
    → FitsWire request
    → config.stratum ≤ 15
    → All IsByte config.reference_id
    → IsResponse request (response_packet upstream_sync config clock request)
unfolding response_packet
response_packet-IsResponse upstream_sync config clock request f h b =
    correct_times-IsResponse upstream_sync request _ (
      created-IsResponse request _ _ clock f (effective_reference_id-IsByte config b)
        (response_stratum-le upstream_sync config.stratum h))

-- The datagram `d` is an answer of 48 bytes, no longer than the packet in `buffer`.
pub record IsReply (buffer d : Bytes) : Type 0 where
  pub request : NtpPacket
  pub response : NtpPacket
  pub received : parse_from_data buffer ≡ some request
  pub readable : parse_from_data d ≡ some response
  pub answers : IsResponse request response
  pub size : length d ≡ 48
  pub no_amplification : length d ≤ length buffer

-- If the configured stratum is at most 15, the reference identifier and the received packet
-- consist of bytes, and processing the packet sends a datagram, then the packet parses as a
-- request, and the datagram has 48 bytes, is no longer than the packet, and parses as a valid
-- server response of version 4 that fits the wire and whose originate time is the request's
-- transmit time.
pub process_packet-IsReply :
    (digest : AuthAlgorithm → Bytes → Option Bytes) (inet_pton : Bytes → Option ℕ) (a : Arrival)
    (s : NtpServer) (r : NtpServer × Option Bytes) (d : Bytes)
    → s.config.stratum ≤ 15
    → All IsByte s.config.reference_id
    → All IsByte a.buffer
    → process_packet digest inet_pton a s ≡ ok r
    → r.1 ≡ some d
    → IsReply a.buffer d
process_packet-IsReply digest inet_pton a s r d h id_bytes bytes run sent =
    let (allowed, w) = process_packet-Answers digest inet_pton a s r d run sent in
    let f = parse-FitsWire a.buffer w.request bytes w.parsed in
    let response = response_packet s.upstream_sync s.config a.clock w.request in
    let good = response_packet-IsResponse s.upstream_sync s.config a.clock w.request f h id_bytes in
    let size = ap length w.built ∙ length-serialize_to_data response in
    let long = parse_from_data-length a.buffer w.request w.parsed in
    record {
      request = w.request;
      response = response;
      received = w.parsed;
      readable =
          ap parse_from_data w.built
          ∙ sym (ap parse_from_data (append-nil (serialize_to_data response)))
          ∙ parse-serialize response [] good.fits;
      answers = good;
      size = size;
      no_amplification = omega (arith, size, long);
    }
