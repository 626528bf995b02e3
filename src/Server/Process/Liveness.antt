-- ===== src/Server/Process/Liveness.antt =====
-- Which packets `processPacket` (src/simple-ntpd/core/server.cpp) answers.
use simple_ntpd.Common.{
  ℕ, ◌≡◌, refl, ap, ◌∙◌, Bool, true, false, not, ◌&&◌, Option, none, some, if-true, if-false,
  if◌then◌else◌,
}
use simple_ntpd.Common.Text.{Bytes}
use simple_ntpd.Common.Result.{Result, ok, ◌>>=◌}
use simple_ntpd.Common.Map.{lookup, bytes_eq}
use simple_ntpd.Config.{NtpConfig, AuthAlgorithm}
use simple_ntpd.Packet.{NtpPacket}
use simple_ntpd.Packet.Wire.{parse_from_data, serialize_to_data}
use simple_ntpd.Connection.{NtpConnection, new_connection, set_trusted, handle_packet}
use simple_ntpd.Connection.Admission.{Admissible, handle_packet_iff}
use simple_ntpd.Server.{NtpServer, count_error}
use simple_ntpd.Server.Security.{is_client_allowed, is_rate_limit_exceeded, is_ddos_anomaly}
use simple_ntpd.Server.Connections.{
  client_key, add_connection, get_or_create_connection, found_or_created, create_connection,
  put_connection,
}
use simple_ntpd.Server.Process.{
  Arrival, response_packet, deliver, respond, handle, serve, check_anomaly, check_rate,
  process_packet,
}

-- The connection of the client in the table, or the new one.
abbrev known_or_new : Option NtpConnection → Bytes → NtpConfig → NtpConnection
known_or_new none ip config = set_trusted true (new_connection none ip config)
known_or_new (some c) ip config = c

module _ (digest : AuthAlgorithm → Bytes → Option Bytes) (inet_pton : Bytes → Option ℕ)
    (a : Arrival) where
  abbrev pub connection_of : NtpServer → NtpConnection
  connection_of s =
      known_or_new (lookup (client_key a.client_ip a.client_port) s.active_connections) a.client_ip
        s.config

  -- What lets the server answer the packet p: the access lists allow the client, neither limit
  -- stands in the way, the client's connection admits the packet, and `sendto` sends.
  pub record IsServed (s : NtpServer) (p : NtpPacket) : Type 0 where
    pub allowed : is_client_allowed inet_pton s.config a.client_ip ≡ ok true
    pub within_rate :
        (is_rate_limit_exceeded s.config a.minute a.client_ip s.connection_rate_buckets).1 ≡ false
    pub calm : (is_ddos_anomaly s.config a.second a.client_ip s.request_second_buckets).1 ≡ false
    pub admitted : Admissible digest a.minute a.buffer (connection_of s) p
    pub delivered : a.sent ≡ true

  deliver-sent :
      (response : NtpPacket) (selected : Bytes) (s : NtpServer)
      → a.sent ≡ true
      → (deliver a response selected s).1 ≡ some (serialize_to_data response)
  unfolding deliver
  deliver-sent response selected s h =
      ap (λ (r : NtpServer × Option Bytes). r.1) (if-false (not a.sent) _ _ (ap not h))

  handle-answer :
      (c : NtpConnection) (s : NtpServer) (p : NtpPacket)
      → Admissible digest a.minute a.buffer c p
      → a.sent ≡ true
      → (handle digest inet_pton a c s).1
        ≡ some (serialize_to_data (response_packet s.upstream_sync s.config a.clock p))
  unfolding handle respond
  handle-answer c s p admitted sent =
      let (c', accepted) = handle_packet digest a.minute a.buffer c in
      let s' = put_connection (client_key a.client_ip a.client_port) c' s in
      ap (λ (r : NtpServer × Option Bytes). r.1)
        (if-true accepted (respond a (parse_from_data a.buffer) s') _
          ((handle_packet_iff digest a.minute a.buffer c).1 (p, admitted)))
      ∙ ap (λ o. (respond a o s').1) admitted.parsed
      ∙ deliver-sent (response_packet s.upstream_sync s.config a.clock p) _ _ sent

  -- A connection is at hand, and what a response is made from is as it was.
  connected :
      (o : Option NtpConnection) (s : NtpServer)
      → is_client_allowed inet_pton s.config a.client_ip ≡ ok true
      → (t : NtpServer) × (found_or_created inet_pton
            (client_key a.client_ip a.client_port)
            a.client_ip
            s
            o
          ≡ ok (t, known_or_new o a.client_ip s.config))
        × (t.upstream_sync ≡ s.upstream_sync)
        × (t.config ≡ s.config)
  unfolding found_or_created create_connection
  connected (some c) s allowed = (s, refl, refl, refl)
  connected none s allowed = (
    add_connection (client_key a.client_ip a.client_port) (known_or_new none a.client_ip s.config)
        s,
    ap
        (λ (r : Result Bool). r >>= (λ allowed'.
          let c : NtpConnection = set_trusted allowed' (new_connection none a.client_ip s.config) in
          ok (add_connection (client_key a.client_ip a.client_port) c s, c)))
        allowed,
    refl,
    refl,
  )

  -- If the access lists allow a client, neither limit stands in the way, its connection, old or
  -- new, admits the packet and the datagram can be sent, then processing the packet sends the
  -- response packet to it.
  pub process_packet-IsServed :
      (s : NtpServer) (p : NtpPacket)
      → IsServed s p
      → (t : NtpServer) × (process_packet digest inet_pton a s
          ≡ ok (t, some (serialize_to_data (response_packet s.upstream_sync s.config a.clock p))))
  unfolding process_packet check_rate check_anomaly serve get_or_create_connection
  process_packet-IsServed s p served =
      let rate = is_rate_limit_exceeded s.config a.minute a.client_ip s.connection_rate_buckets in
      let s1 : NtpServer = record s { connection_rate_buckets = rate.0 } in
      let anomaly = is_ddos_anomaly s.config a.second a.client_ip s.request_second_buckets in
      let s2 : NtpServer = record s1 { request_second_buckets = anomaly.0 } in
      let key : Bytes = client_key a.client_ip a.client_port in
      let (s3, found, same_sync, same_config) =
        connected (lookup key s.active_connections) s2 served.allowed in
      let end : NtpServer × Option Bytes = handle digest inet_pton a (connection_of s) s3 in
      let answered : end.1
          ≡ some (serialize_to_data (response_packet s.upstream_sync s.config a.clock p)) =
        handle-answer (connection_of s) s3 p served.admitted served.delivered
        ∙ ap (λ u. some (serialize_to_data (response_packet u s3.config a.clock p))) same_sync
        ∙ ap (λ c. some (serialize_to_data (response_packet s.upstream_sync c a.clock p)))
            same_config in
      (
        end.0,
        ap
              (λ (r : Result Bool). r >>= (λ allowed.
                if allowed then check_rate digest inet_pton a s else ok (count_error s, none)))
              served.allowed
            ∙ if-false rate.1 _ (check_anomaly digest inet_pton a s1) served.within_rate
            ∙ if-false (anomaly.1 && s.config.enable_graceful_degradation) _
                (serve digest inet_pton a s2)
                (ap (λ b. b && s.config.enable_graceful_degradation) served.calm)
            ∙ ap
                (λ (r : Result (NtpServer × NtpConnection)).
                  r >>= (λ (t, c). ok (handle digest inet_pton a c t)))
                found
            ∙ ap (λ o. ok (end.0, o)) answered,
      )
