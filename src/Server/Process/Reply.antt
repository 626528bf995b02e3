-- ===== src/Server/Process/Reply.antt =====
-- What a datagram that `processPacket` sends is an answer to.
use simple_ntpd.Common.{
  ℕ, ◌≡◌, inl, inr, refl, sym, ap, subst, ◌∙◌, arith, Bool, true, false, Option, none, some,
  Bool-cases, if-true, some-value, if◌then◌else◌,
}
use simple_ntpd.Common.Text.{Bytes}
use simple_ntpd.Common.Result.{Result, ok, bind-eq-ok, ok-value}
use simple_ntpd.Common.Map.{lookup, bytes_eq}
use simple_ntpd.Config.{NtpConfig, AuthAlgorithm}
use simple_ntpd.Packet.{NtpPacket}
use simple_ntpd.Packet.Wire.{parse_from_data, serialize_to_data}
use simple_ntpd.Packet.Validation.Laws.{IsAcceptable}
use simple_ntpd.Connection.{NtpConnection, handle_packet}
use simple_ntpd.Connection.Admission.{handle_packet_iff}
use simple_ntpd.Upstream.{SyncState}
use simple_ntpd.Server.{NtpServer, count_error}
use simple_ntpd.Server.Security.{is_client_allowed}
use simple_ntpd.Server.Connections.{
  client_key, get_or_create_connection, found_or_created, create_connection, put_connection,
}
use simple_ntpd.Server.Process.{
  Arrival, response_packet, count_time, deliver, respond, handle, serve, check_anomaly, check_rate,
  process_packet,
}

-- The datagram `d` answers a request that stands in the packet's bytes.
pub record Answers (upstream_sync : Option SyncState) (config : NtpConfig) (a : Arrival) (d : Bytes)
    : Type 0 where
  pub request : NtpPacket
  pub parsed : parse_from_data a.buffer ≡ some request
  pub acceptable : IsAcceptable request
  pub from_client : request.mode ≡ 3
  pub built : d ≡ serialize_to_data (response_packet upstream_sync config a.clock request)

-- What a response is made from.
abbrev pub sources : NtpServer → Option SyncState × NtpConfig
sources s = (s.upstream_sync, s.config)

-- Nothing is sent, or an answer.
abbrev pub Sends : Option SyncState × NtpConfig → Arrival → Option Bytes → Type 0
Sends (upstream_sync, config) a reply =
    (d : Bytes) → reply ≡ some d → Answers upstream_sync config a d

deliver-Sends :
    (a : Arrival) (response : NtpPacket) (selected : Bytes) (s : NtpServer) (d : Bytes)
    → (deliver a response selected s).1 ≡ some d
    → d ≡ serialize_to_data response
unfolding deliver
deliver-Sends a response selected s d e = elim (Bool-cases a.sent) [
  | inl sent ↦ ground arith
  | inr failed ↦ ground arith
]

respond-Sends :
    (a : Arrival) (o : Option NtpPacket) (s : NtpServer) (d : Bytes)
    → (respond a o s).1 ≡ some d
    → (request : NtpPacket) × (o ≡ some request)
      × (d ≡ serialize_to_data (response_packet s.upstream_sync s.config a.clock request))
unfolding respond
respond-Sends a none s d e = cc
respond-Sends a (some request) s d e = (request, refl, deliver-Sends a _ _ _ d e)

-- A branch that sends nothing, or goes on.
Sends-if :
    (b : Bool) (v : Option SyncState × NtpConfig) (a : Arrival) (x r : NtpServer × Option Bytes)
    (y : Result (NtpServer × Option Bytes))
    → (if b then ok x else y) ≡ ok r
    → x.1 ≡ none
    → (y ≡ ok r → Sends v a r.1)
    → Sends v a r.1
Sends-if true v a x r y h n f =
    λ d e. cc (n, e, ap (λ (t : NtpServer × Option Bytes). t.1) (ok-value h))
Sends-if false v a x r y h n f = f h

module _ (digest : AuthAlgorithm → Bytes → Option Bytes) (inet_pton : Bytes → Option ℕ)
    (a : Arrival) where
  handle-Sends :
      (connection : NtpConnection) (s : NtpServer)
      → Sends (sources s) a (handle digest inet_pton a connection s).1
  unfolding handle
  handle-Sends connection s d e =
      elim (Bool-cases (handle_packet digest a.minute a.buffer connection).1) [
        | inl accepted ↦
            let (p, admissible) =
              (handle_packet_iff digest a.minute a.buffer connection).0 accepted in
            let (c', b) = handle_packet digest a.minute a.buffer connection in
            let s' = put_connection (client_key a.client_ip a.client_port) c' s in
            let sent =
              if-true b (respond a (parse_from_data a.buffer) s')
                (count_time a.duration_us (count_error s'), none) accepted in
            let (request, parsed, built) =
              respond-Sends a (parse_from_data a.buffer) s' d
                (ap (λ (t : NtpServer × Option Bytes). t.1) (sym sent) ∙ e) in
            let same : p ≡ request = some-value (sym admissible.parsed ∙ parsed) in
            record {
              request = request;
              parsed = parsed;
              acceptable = subst IsAcceptable same admissible.acceptable;
              from_client = ap (λ (t : NtpPacket). t.mode) (sym same) ∙ admissible.from_client;
              built = built;
            }
        | inr refused ↦ cc
      ]

  found-sources :
      (key ip : Bytes) (s : NtpServer) (o : Option NtpConnection) (r : NtpServer × NtpConnection)
      → found_or_created inet_pton key ip s o ≡ ok r
      → sources r.0 ≡ sources s
  unfolding found_or_created create_connection
  found-sources key ip s (some connection) r h =
      ap (λ (t : NtpServer × NtpConnection). sources t.0) (sym (ok-value h))
  found-sources key ip s none r h =
      let (allowed, e, made) = bind-eq-ok (is_client_allowed inet_pton s.config ip) _ h in
      ap (λ (t : NtpServer × NtpConnection). sources t.0) (sym (ok-value made))

  serve-Sends :
      (s : NtpServer) (r : NtpServer × Option Bytes)
      → serve digest inet_pton a s ≡ ok r
      → Sends (sources s) a r.1
  unfolding serve get_or_create_connection
  serve-Sends s r h =
      let ((s', connection), found, handled) =
        bind-eq-ok (get_or_create_connection inet_pton a.client_ip a.client_port s) _ h in
      let key = client_key a.client_ip a.client_port in
      let kept = found-sources key a.client_ip s (lookup key s.active_connections) _ found in
      subst (λ (t : NtpServer × Option Bytes). Sends (sources s) a t.1) (ok-value handled)
        (subst (λ v. Sends v a (handle digest inet_pton a connection s').1) kept
          (handle-Sends connection s'))

  check_anomaly-Sends :
      (s : NtpServer) (r : NtpServer × Option Bytes)
      → check_anomaly digest inet_pton a s ≡ ok r
      → Sends (sources s) a r.1
  unfolding check_anomaly
  check_anomaly-Sends s r h = Sends-if _ (sources s) a _ r _ h refl (serve-Sends _ r)

  check_rate-Sends :
      (s : NtpServer) (r : NtpServer × Option Bytes)
      → check_rate digest inet_pton a s ≡ ok r
      → Sends (sources s) a r.1
  unfolding check_rate
  check_rate-Sends s r h = Sends-if _ (sources s) a _ r _ h refl (check_anomaly-Sends _ r)

  -- If processing a packet sends a datagram, then the access lists allow the client, the packet
  -- parses to an acceptable request of mode 3, and the datagram is the serialized response packet
  -- to that request.
  pub process_packet-Answers :
      (s : NtpServer) (r : NtpServer × Option Bytes) (d : Bytes)
      → process_packet digest inet_pton a s ≡ ok r
      → r.1 ≡ some d
      → (is_client_allowed inet_pton s.config a.client_ip ≡ ok true)
        × Answers s.upstream_sync s.config a d
  unfolding process_packet
  process_packet-Answers s r d h e =
      let (allowed, asked, rest) =
        bind-eq-ok (is_client_allowed inet_pton s.config a.client_ip) _ h in
      let answers = settle allowed rest d e in
      elim (Bool-cases allowed) [
        | inl yes' ↦ (asked ∙ ap ok yes', answers)
        | inr no' ↦ absurd (denied allowed no' rest)
      ]
    where
      settle :
          (allowed : Bool)
          → (if allowed then check_rate digest inet_pton a s else ok (count_error s, none)) ≡ ok r
          → Sends (sources s) a r.1
      settle true h' = check_rate-Sends s r h'
      settle false h' = λ d' e'. cc (e', ap (λ (t : NtpServer × Option Bytes). t.1) (ok-value h'))

      denied :
          (allowed : Bool)
          → allowed ≡ false
          → (if allowed then check_rate digest inet_pton a s else ok (count_error s, none)) ≡ ok r
          → ⊥
      denied true n h' = cc
      denied false n h' = cc (e, ap (λ (t : NtpServer × Option Bytes). t.1) (ok-value h'))
