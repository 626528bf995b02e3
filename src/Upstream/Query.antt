-- ===== src/Upstream/Query.antt =====
-- When a query of an upstream server succeeds, and what it does not look at.
use simple_ntpd.Common.{
  List, ◌≡◌, inl, inr, refl, arith, ap, sym, ◌∙◌, true, some, [], Option-cases,
}
use mathlib.Core.List.{append-nil}
use simple_ntpd.Common.Text.{Bytes}
use simple_ntpd.Timestamp.{NtpTimestamp, IsTimestamp, from_system_time}
use simple_ntpd.Exchange.{calculate_offset, calculate_round_trip_delay}
use simple_ntpd.Packet.{NtpPacket, FitsWire}
use simple_ntpd.Packet.Wire.{parse_from_data, serialize_to_data}
use simple_ntpd.Packet.Wire.RoundTrip.{parse-serialize, length-serialize_to_data}
use simple_ntpd.Packet.Validation.{is_valid}
use simple_ntpd.Packet.Validation.Laws.{IsAcceptable, is_valid_iff}
use simple_ntpd.Packet.Response.{create_client_request}
use simple_ntpd.Upstream.{
  UpstreamSyncResult, Network, Address, send_any, send_request, accept_response, receive_response,
  query_upstream_server,
}

-- The datagram that the query received is an acceptable server response, and the result is
-- computed from it.
pub record Answered (net : Network) (r : UpstreamSyncResult) : Type 0 where
  pub datagram : Bytes
  pub response : NtpPacket
  pub was_received : net.received ≡ some datagram
  pub parses : parse_from_data datagram ≡ some response
  pub acceptable : IsAcceptable response
  pub from_server : response.mode ≡ 4
  pub offset_is :
      r.offset_us
      ≡ calculate_offset
          (from_system_time net.request_time)
          response.receive_ts
          response.transmit_ts
          (from_system_time net.reply_time)
  pub delay_is :
      r.delay_us
      ≡ calculate_round_trip_delay
          (from_system_time net.request_time)
          response.receive_ts
          response.transmit_ts
          (from_system_time net.reply_time)
  pub stratum_is : r.stratum ≡ response.stratum

-- A query that succeeds has received a datagram that parses to an acceptable packet of mode 4,
-- and its offset, delay and stratum are those calculated from that packet and the two readings of
-- the clock.
query-Answered :
    (net : Network) (host : Bytes)
    → (query_upstream_server net host).success ≡ true
    → Answered net (query_upstream_server net host)
unfolding query_upstream_server accept_response create_client_request
query-Answered net host h = elim (Option-cases net.received) [
  | inl e ↦ absurd (ground arith)
  | inr (datagram, e) ↦ elim (Option-cases (parse_from_data datagram)) [
    | inl f ↦ absurd (ground arith)
    | inr (response, f) ↦ record {
      datagram = datagram;
      response = response;
      was_received = e;
      parses = f;
      acceptable = (is_valid_iff response).0.0 (ground arith);
      from_server = ground arith;
      offset_is = ground arith;
      delay_is = ground arith;
      stratum_is = ground arith;
    }
  ]
]

-- A server response as it comes over the wire.
abbrev pub answering : Network → NtpPacket → Network
answering net response = record net { received = some (serialize_to_data response) }

abbrev pub with_originate : NtpTimestamp → NtpPacket → NtpPacket
with_originate t p = record p { originate_ts = t }

FitsWire-with_originate :
    (t : NtpTimestamp) (p : NtpPacket) → IsTimestamp t → FitsWire p → FitsWire (with_originate t p)
FitsWire-with_originate t p v f = record {
  leap_bound = f.leap_bound;
  version_bound = f.version_bound;
  mode_bound = f.mode_bound;
  stratum_bound = f.stratum_bound;
  poll_bound = f.poll_bound;
  precision_bound = f.precision_bound;
  root_delay_bound = f.root_delay_bound;
  root_dispersion_bound = f.root_dispersion_bound;
  reference_id_bound = f.reference_id_bound;
  reference_fits = f.reference_fits;
  originate_fits = v;
  receive_fits = f.receive_fits;
  transmit_fits = f.transmit_fits;
}

parse-sent : (p : NtpPacket) → FitsWire p → parse_from_data (serialize_to_data p) ≡ some p
parse-sent p f = ap parse_from_data (sym (append-nil _)) ∙ parse-serialize p [] f

receive-serialize :
    (host : Bytes) (t1 t4 : NtpTimestamp) (p : NtpPacket)
    → FitsWire p
    → receive_response host t1 t4 (some (serialize_to_data p)) ≡ accept_response host t1 t4 (some p)
unfolding receive_response
receive-serialize host t1 t4 p f = ground (arith, length-serialize_to_data p, parse-sent p f)

is_valid-with_originate :
    (t : NtpTimestamp) (p : NtpPacket) → is_valid (with_originate t p) ≡ is_valid p
unfolding is_valid
is_valid-with_originate t p = refl

accept-with_originate :
    (host : Bytes) (t1 t4 t : NtpTimestamp) (p : NtpPacket)
    → accept_response host t1 t4 (some (with_originate t p)) ≡ accept_response host t1 t4 (some p)
unfolding accept_response
accept-with_originate host t1 t4 t p = rw (is_valid-with_originate t p)

-- A query answered by a packet with fields in range gives the same result whatever valid
-- timestamp stands in the answer's originate field.
query_ignores_originate :
    (net : Network) (host : Bytes) (p : NtpPacket) (t : NtpTimestamp)
    → FitsWire p
    → IsTimestamp t
    → query_upstream_server (answering net (with_originate t p)) host
      ≡ query_upstream_server (answering net p) host
unfolding query_upstream_server
query_ignores_originate net host p t f v =
    let t1 = (create_client_request net.request_time).transmit_ts in
    let t4 = from_system_time net.reply_time in
    ground (
      arith,
      receive-serialize host t1 t4 p f,
      receive-serialize host t1 t4 (with_originate t p) (FitsWire-with_originate t p v f),
      accept-with_originate host t1 t4 t p,
    )

-- A query whose request is sent and whose answer is a packet that fits the wire comes down to the
-- tests of that packet.
pub query-received :
    (net : Network) (host : Bytes) (sent_to : List Address) (response : NtpPacket)
    → net.addresses ≡ some sent_to
    → net.socket_opens ≡ true
    → send_any 48 sent_to ≡ true
    → net.received ≡ some (serialize_to_data response)
    → FitsWire response
    → query_upstream_server net host
      ≡ accept_response host
          (from_system_time net.request_time)
          (from_system_time net.reply_time)
          (some response)
unfolding query_upstream_server send_request create_client_request
query-received net host sent_to response resolved opens sends carried fits =
    let t1 = from_system_time net.request_time in
    let t4 = from_system_time net.reply_time in
    ground (
      arith,
      receive-serialize host t1 t4 response fits,
      length-serialize_to_data (create_client_request net.request_time),
      ap (λ o. receive_response host t1 t4 o) carried,
    )
