-- ===== src/Server/Process/Table.antt =====
-- What a packet does to the table of connections.
use simple_ntpd.Common.{
  ℕ, ◌%◌, ◌^◌, ◌≡◌, inl, inr, refl, sym, subst, ap, ◌∙◌, arith, Bool, true, false, Option, none,
  some, List, length, Bool-cases, if-both, All, if◌then◌else◌,
}
use simple_ntpd.Common.Text.{Bytes}
use simple_ntpd.Common.Result.{Result, ok, bind-eq-ok, ok-value}
use simple_ntpd.Common.Map.{bytes_eq}
use simple_ntpd.Config.{AuthAlgorithm}
use simple_ntpd.Packet.{NtpPacket}
use simple_ntpd.Packet.Wire.{parse_from_data}
use simple_ntpd.Connection.{NtpConnection, count_request, handle_packet}
use simple_ntpd.Connection.Admission.{handle_packet_accepts, handle_packet_rejects}
use simple_ntpd.Server.{NtpServer, count_error}
use simple_ntpd.Server.Security.{is_client_allowed, is_rate_limit_exceeded, is_ddos_anomaly}
use simple_ntpd.Server.Connections.{client_key, get_or_create_connection, put_connection}
use simple_ntpd.Server.Connections.Registry.{
  IsRegistry, Grows, put-Grows, put_connection-IsRegistry, Entered,
  get_or_create_connection-Entered,
}
use simple_ntpd.Server.Upstreams.{select_upstream_server, apply_dynamic_stratum}
use simple_ntpd.Server.Process.{
  Arrival, send_failed, deliver, count_time, respond, handle, serve, check_anomaly, check_rate,
  process_packet,
}

handle_packet-active :
    (digest : AuthAlgorithm → Bytes → Option Bytes) (minute : ℕ) (buffer : Bytes)
    (c : NtpConnection)
    → (handle_packet digest minute buffer c).0.active ≡ c.active
unfolding count_request
handle_packet-active digest minute buffer c =
    elim (Bool-cases (handle_packet digest minute buffer c).1) [
      | inl yes' ↦
          active (handle_packet_accepts digest minute buffer c yes')
          ∙ if-both (λ (d : NtpConnection). d.active ≡ c.active) c.config.enable_rate_limiting
              (count_request minute c) c refl refl
      | inr no' ↦ elim (handle_packet_rejects digest minute buffer c no') [
        | inl kept ↦ active kept
        | inr counted ↦ active counted
      ]
    ]
  where
    active : {d e : NtpConnection} → d ≡ e → d.active ≡ e.active
    active p = ap (λ (d : NtpConnection). d.active) p

-- The table and its counter.
abbrev pub table : NtpServer → List (Bytes × NtpConnection) × ℕ
table s = (s.active_connections, s.stats.active_connections)

select-table : (draw : ℕ) (s : NtpServer) → table (select_upstream_server draw s).0 ≡ table s
unfolding select_upstream_server
select-table draw s = ground arith

dynamic-table : (s : NtpServer) → table (apply_dynamic_stratum s) ≡ table s
unfolding apply_dynamic_stratum
dynamic-table s = ground arith

deliver-table :
    (a : Arrival) (response : NtpPacket) (selected : Bytes) (s : NtpServer)
    → table (deliver a response selected s).0 ≡ table s
unfolding deliver send_failed count_time
deliver-table a response selected s = ground arith

respond-table :
    (a : Arrival) (o : Option NtpPacket) (s : NtpServer) → table (respond a o s).0 ≡ table s
unfolding respond
respond-table a none s = refl
respond-table a (some request) s =
    deliver-table a _ _ _ ∙ (select-table a.draw (apply_dynamic_stratum s) ∙ dynamic-table s)

-- From a table to the next one.
pub record Passes (s s' : NtpServer) : Type 0 where
  pub registry : IsRegistry s'
  pub grows : Grows s.active_connections s'.active_connections

carry :
    (s t u : NtpServer)
    → table u ≡ table t
    → IsRegistry t
    → Grows s.active_connections t.active_connections
    → Passes s u
carry s t u e r g = record {
  registry = record {
    all_active =
        subst
          (λ (x : List (Bytes × NtpConnection) × ℕ).
            All (λ (y : Bytes × NtpConnection). y.1.active ≡ true) x.0)
          (sym e) r.all_active;
    counted =
        subst (λ (x : List (Bytes × NtpConnection) × ℕ). x.1 ≡ length x.0 % 2 ^ 64) (sym e)
          r.counted;
  };
  grows =
      subst (λ (x : List (Bytes × NtpConnection) × ℕ). Grows s.active_connections x.0) (sym e) g;
}

idle : (s u : NtpServer) → IsRegistry s → table u ≡ table s → Passes s u
idle s u r e =
    carry s s u e r
      (record { stays = λ k c h. (c, h); at_least = omega arith; at_most = omega arith })

-- A branch that refuses, or goes on from a state `t` with the same table.
Passes-if :
    (b : Bool) (s : NtpServer) (x r : NtpServer × Option Bytes)
    (y : Result (NtpServer × Option Bytes))
    → (if b then ok x else y) ≡ ok r
    → Passes s x.0
    → (y ≡ ok r → Passes s r.0)
    → Passes s r.0
Passes-if true s x r y h c f = subst (λ (t : NtpServer × Option Bytes). Passes s t.0) (ok-value h) c
Passes-if false s x r y h c f = f h

module _ (digest : AuthAlgorithm → Bytes → Option Bytes) (inet_pton : Bytes → Option ℕ)
    (a : Arrival) where
  handle-Passes :
      (s t : NtpServer) (c : NtpConnection)
      → Entered (client_key a.client_ip a.client_port) s (t, c)
      → Passes s (handle digest inet_pton a c t).0
  unfolding handle count_time
  handle-Passes s t c w =
      let key = client_key a.client_ip a.client_port in
      let (c', accepted) = handle_packet digest a.minute a.buffer c in
      let t' = put_connection key c' t in
      let open_ = handle_packet-active digest a.minute a.buffer c ∙ w.open_ in
      let registry = put_connection-IsRegistry key c' c t open_ w.entered w.registry in
      let grows = put-Grows key c' c s.active_connections t.active_connections w.entered w.grows in
      carry s t' (handle digest inet_pton a c t).0
        (if-both (λ (r : NtpServer × Option Bytes). table r.0 ≡ table t') accepted
          (respond a (parse_from_data a.buffer) t')
          (count_time a.duration_us (count_error t'), none)
          (respond-table a (parse_from_data a.buffer) t') refl)
        registry grows

  serve-Passes :
      (s : NtpServer) (r : NtpServer × Option Bytes)
      → IsRegistry s
      → serve digest inet_pton a s ≡ ok r
      → Passes s r.0
  unfolding serve
  serve-Passes s r w h =
      let ((t, c), found, handled) =
        bind-eq-ok (get_or_create_connection inet_pton a.client_ip a.client_port s) _ h in
      let entered =
        get_or_create_connection-Entered inet_pton a.client_ip a.client_port s _ w found in
      subst (λ (x : NtpServer × Option Bytes). Passes s x.0) (ok-value handled)
        (handle-Passes s t c entered)

  check_anomaly-Passes :
      (s : NtpServer) (r : NtpServer × Option Bytes)
      → IsRegistry s
      → check_anomaly digest inet_pton a s ≡ ok r
      → Passes s r.0
  unfolding check_anomaly
  check_anomaly-Passes s r w h =
      let buckets = (is_ddos_anomaly s.config a.second a.client_ip s.request_second_buckets).0 in
      let t = record s { request_second_buckets = buckets } in
      let go = serve-Passes t r (record { all_active = w.all_active; counted = w.counted }) in
      Passes-if _ s _ r _ h (idle s (count_error t) w refl)
        (λ k. let p = go k in record { registry = p.registry; grows = p.grows })

  check_rate-Passes :
      (s : NtpServer) (r : NtpServer × Option Bytes)
      → IsRegistry s
      → check_rate digest inet_pton a s ≡ ok r
      → Passes s r.0
  unfolding check_rate
  check_rate-Passes s r w h =
      let buckets =
        (is_rate_limit_exceeded s.config a.minute a.client_ip s.connection_rate_buckets).0 in
      let t = record s { connection_rate_buckets = buckets } in
      let go =
        check_anomaly-Passes t r (record { all_active = w.all_active; counted = w.counted }) in
      Passes-if _ s _ r _ h (idle s (count_error t) w refl)
        (λ k. let p = go k in record { registry = p.registry; grows = p.grows })

  pub process_packet-Passes :
      (s : NtpServer) (r : NtpServer × Option Bytes)
      → IsRegistry s
      → process_packet digest inet_pton a s ≡ ok r
      → Passes s r.0
  unfolding process_packet
  process_packet-Passes s r w h =
      let (allowed, e, rest) = bind-eq-ok (is_client_allowed inet_pton s.config a.client_ip) _ h in
      settle allowed rest
    where
      settle :
          (allowed : Bool)
          → (if allowed then check_rate digest inet_pton a s else ok (count_error s, none)) ≡ ok r
          → Passes s r.0
      settle true e = check_rate-Passes s r w e
      settle false e =
          subst (λ (x : NtpServer × Option Bytes). Passes s x.0) (ok-value e)
            (idle s (count_error s) w refl)
