-- ===== src/Server/Process/Accounting.antt =====
-- Each packet is counted once: as a request that was answered, or as an error.
use simple_ntpd.Common.{
  ℕ, ◌≡◌, ◌⊎◌, inl, inr, refl, sym, subst, ap, ◌∙◌, arith, Bool, true, false, not, Option, none,
  some, length, if-both, if◌then◌else◌,
}
use simple_ntpd.Common.Text.{Bytes}
use simple_ntpd.Common.Result.{Result, ok, bind-eq-ok, ok-value}
use simple_ntpd.Common.Map.{lookup, bytes_eq}
use simple_ntpd.Config.{AuthAlgorithm}
use simple_ntpd.Packet.{NtpPacket}
use simple_ntpd.Packet.Wire.{parse_from_data, serialize_to_data}
use simple_ntpd.Connection.{NtpConnection, add_u64, handle_packet}
use simple_ntpd.Server.{NtpServer, count_error}
use simple_ntpd.Server.Security.{is_client_allowed, is_rate_limit_exceeded, is_ddos_anomaly}
use simple_ntpd.Server.Connections.{
  client_key, get_or_create_connection, found_or_created, create_connection, put_connection,
}
use simple_ntpd.Server.Upstreams.{select_upstream_server, apply_dynamic_stratum}
use simple_ntpd.Server.Process.{
  Arrival, response_packet, send_failed, deliver, count_time, count_response, respond, handle,
  serve, check_anomaly, check_rate, process_packet,
}

-- What a packet is counted by.
pub record Counters : Type 0 where
  pub requests : ℕ
  pub responses : ℕ
  pub bytes : ℕ
  pub errors : ℕ

abbrev pub counters : NtpServer → Counters
counters s = record {
  requests = s.stats.total_requests;
  responses = s.stats.total_responses;
  bytes = s.stats.total_bytes_transferred;
  errors = s.stats.total_errors;
}

abbrev pub refused : Counters → Counters
refused k = record k { errors = add_u64 k.errors 1 }

abbrev pub served : ℕ → Counters → Counters
served size k = record k {
  requests = add_u64 k.requests 1;
  responses = add_u64 k.responses 1;
  bytes = add_u64 k.bytes size;
}

-- Either nothing was sent and one error is counted, or a datagram was sent and one request,
-- one response and the bytes of the packet are.
abbrev pub Counted : ℕ → Counters → NtpServer × Option Bytes → Type 0
Counted size k (s', reply) =
    ((reply ≡ none) × (counters s' ≡ refused k))
    ⊎ ((d : Bytes) × (reply ≡ some d) × (counters s' ≡ served size k))

select-counters :
    (draw : ℕ) (s : NtpServer) → counters (select_upstream_server draw s).0 ≡ counters s
unfolding select_upstream_server
select-counters draw s = ground arith

dynamic-counters : (s : NtpServer) → counters (apply_dynamic_stratum s) ≡ counters s
unfolding apply_dynamic_stratum
dynamic-counters s = ground arith

send_failed-counters :
    (selected : Bytes) (s : NtpServer) → counters (send_failed selected s) ≡ refused (counters s)
unfolding send_failed
send_failed-counters selected s = ground arith

count_time-counters : (t : ℕ) (s : NtpServer) → counters (count_time t s) ≡ counters s
unfolding count_time
count_time-counters t s = refl

deliver-Counted :
    (a : Arrival) (response : NtpPacket) (selected : Bytes) (s : NtpServer)
    → Counted (length a.buffer) (counters s) (deliver a response selected s)
unfolding deliver
deliver-Counted a response selected s =
    if-both (Counted (length a.buffer) (counters s)) (not a.sent) (send_failed selected s, none)
      (
        count_time a.duration_us (count_response (length a.buffer) s),
        some (serialize_to_data response),
      )
      (inl (refl, send_failed-counters selected s))
      (inr (
        serialize_to_data response,
        refl,
        count_time-counters a.duration_us (count_response (length a.buffer) s),
      ))

-- `Counted` depends on the counters alone.
carry :
    {k k' : Counters} (size : ℕ) (r : NtpServer × Option Bytes)
    → k ≡ k'
    → Counted size k r
    → Counted size k' r
carry size r e c = subst (λ t. Counted size t r) e c

respond-Counted :
    (a : Arrival) (o : Option NtpPacket) (s : NtpServer)
    → Counted (length a.buffer) (counters s) (respond a o s)
unfolding respond
respond-Counted a none s = inl (refl, refl)
respond-Counted a (some request) s =
    carry (length a.buffer) (respond a (some request) s)
      (select-counters a.draw (apply_dynamic_stratum s) ∙ dynamic-counters s)
      (deliver-Counted a (response_packet s.upstream_sync s.config a.clock request) selected s')
  where
    s' : NtpServer
    s' = (select_upstream_server a.draw (apply_dynamic_stratum s)).0

    selected : Bytes
    selected = (select_upstream_server a.draw (apply_dynamic_stratum s)).1

-- A branch that refuses, or goes on.
Counted-if :
    (b : Bool) (size : ℕ) (k : Counters) (x r : NtpServer × Option Bytes)
    (y : Result (NtpServer × Option Bytes))
    → (if b then ok x else y) ≡ ok r
    → Counted size k x
    → (y ≡ ok r → Counted size k r)
    → Counted size k r
Counted-if true size k x r y h c f = subst (Counted size k) (ok-value h) c
Counted-if false size k x r y h c f = f h

module _ (digest : AuthAlgorithm → Bytes → Option Bytes) (inet_pton : Bytes → Option ℕ)
    (a : Arrival) where
  handle-Counted :
      (connection : NtpConnection) (s : NtpServer)
      → Counted (length a.buffer) (counters s) (handle digest inet_pton a connection s)
  unfolding handle
  handle-Counted connection s =
      if-both (Counted (length a.buffer) (counters s)) handled.1
        (respond a (parse_from_data a.buffer) s') (count_time a.duration_us (count_error s'), none)
        (respond-Counted a (parse_from_data a.buffer) s')
        (inl (refl, count_time-counters a.duration_us (count_error s')))
    where
      handled : NtpConnection × Bool
      handled = handle_packet digest a.minute a.buffer connection

      s' : NtpServer
      s' = put_connection (client_key a.client_ip a.client_port) handled.0 s

  found-counters :
      (key ip : Bytes) (s : NtpServer) (o : Option NtpConnection) (r : NtpServer × NtpConnection)
      → found_or_created inet_pton key ip s o ≡ ok r
      → counters r.0 ≡ counters s
  unfolding found_or_created create_connection
  found-counters key ip s (some connection) r h =
      ap counters (ap (λ (t : NtpServer × NtpConnection). t.0) (sym (ok-value h)))
  found-counters key ip s none r h =
      let (allowed, e, made) = bind-eq-ok (is_client_allowed inet_pton s.config ip) _ h in
      ap counters (ap (λ (t : NtpServer × NtpConnection). t.0) (sym (ok-value made)))

  serve-Counted :
      (s : NtpServer) (r : NtpServer × Option Bytes)
      → serve digest inet_pton a s ≡ ok r
      → Counted (length a.buffer) (counters s) r
  unfolding serve get_or_create_connection
  serve-Counted s r h =
      let ((s', connection), found, handled) =
        bind-eq-ok (get_or_create_connection inet_pton a.client_ip a.client_port s) _ h in
      let key = client_key a.client_ip a.client_port in
      let kept = found-counters key a.client_ip s (lookup key s.active_connections) _ found in
      subst (Counted (length a.buffer) (counters s)) (ok-value handled) (
        carry (length a.buffer) (handle digest inet_pton a connection s') kept
          (handle-Counted connection s'))

  check_anomaly-Counted :
      (s : NtpServer) (r : NtpServer × Option Bytes)
      → check_anomaly digest inet_pton a s ≡ ok r
      → Counted (length a.buffer) (counters s) r
  unfolding check_anomaly
  check_anomaly-Counted s r h =
      Counted-if _ (length a.buffer) (counters s) _ r _ h (inl (refl, refl)) (
        serve-Counted
          (record s {
            request_second_buckets =
                (is_ddos_anomaly s.config a.second a.client_ip s.request_second_buckets).0;
          })
          r)

  check_rate-Counted :
      (s : NtpServer) (r : NtpServer × Option Bytes)
      → check_rate digest inet_pton a s ≡ ok r
      → Counted (length a.buffer) (counters s) r
  unfolding check_rate
  check_rate-Counted s r h =
      Counted-if _ (length a.buffer) (counters s) _ r _ h (inl (refl, refl)) (
        check_anomaly-Counted
          (record s {
            connection_rate_buckets =
                (is_rate_limit_exceeded s.config a.minute a.client_ip s.connection_rate_buckets).0;
          })
          r)

  -- A packet that is processed without an exception either sends nothing and adds one to the
  -- errors, or sends a datagram and adds one to the requests, one to the responses and the
  -- packet's size to the bytes; the other of these counters keep their values.
  pub process_packet-Counted :
      (s : NtpServer) (r : NtpServer × Option Bytes)
      → process_packet digest inet_pton a s ≡ ok r
      → Counted (length a.buffer) (counters s) r
  unfolding process_packet
  process_packet-Counted s r h =
      let (allowed, e, rest) = bind-eq-ok (is_client_allowed inet_pton s.config a.client_ip) _ h in
      settle allowed rest
    where
      settle :
          (allowed : Bool)
          → (if allowed then check_rate digest inet_pton a s else ok (count_error s, none)) ≡ ok r
          → Counted (length a.buffer) (counters s) r
      settle true e = check_rate-Counted s r e
      settle false e =
          subst (Counted (length a.buffer) (counters s)) (ok-value e) (inl (refl, refl))
