-- ===== src/Server/Lifecycle/Startup.antt =====
-- When a server starts, and what a start and a stop leave of its state.
use simple_ntpd.Common.{
  ℕ, ◌≡◌, ◌≢◌, ◌↔◌, refl, sym, ap, arith, Bool, true, false, not, ◌&&◌, Option, none, some,
  if◌then◌else◌, not_empty_iff, if-both,
}
use simple_ntpd.Config.{NtpConfig}
use simple_ntpd.Config.Validate.{validate}
use simple_ntpd.Config.Validate.Laws.{validate_iff}
use simple_ntpd.Server.{NtpServer}
use simple_ntpd.Server.Connections.{cleanup_connections}
use simple_ntpd.Server.Connections.Registry.{IsRegistry, cleanup_connections_idle}
use simple_ntpd.Server.Lifecycle.{
  SocketAnswers, tls_files_present, secure_controls_ready, close_socket, finish_start, open_socket,
  start, stop,
}

-- A validated configuration passes the check of the files.
validated-ready : (c : NtpConfig) → validate c ≡ true → secure_controls_ready c ≡ true
unfolding secure_controls_ready tls_files_present
validated-ready c v =
    let u = (validate_iff c).0 v in
    let tls = u.tls_files in
    let ca = u.ca_file in
    ground (
      arith,
      tls,
      ca,
      not_empty_iff c.tls_cert_file,
      not_empty_iff c.tls_key_file,
      not_empty_iff c.tls_ca_file,
    )

-- What a started server is.
pub record IsServing (s s' : NtpServer) : Type 0 where
  pub is_running : s'.running ≡ true
  pub has_socket : s'.server_socket ≢ none
  pub all_healthy : s'.healthy_upstreams ≡ s.config.upstream_servers
  pub same_table : s'.active_connections ≡ s.active_connections
  pub same_stats : s'.stats ≡ s.stats

-- With a valid configuration a server starts exactly if it is not running, the socket opens, the
-- listen address can be read and the bind succeeds.
pub start_iff :
    (answers : SocketAnswers) (s : NtpServer)
    → validate s.config ≡ true
    → ((start answers s).1 ≡ true) ↔ (
        (s.running ≡ false)
        × (answers.opened ≢ none)
        × (answers.address_known ≡ true)
        × (answers.bound ≡ true))
unfolding start open_socket
start_iff answers s v = ground (arith, validated-ready s.config v)

opened-IsServing :
    (answers : SocketAnswers) (s : NtpServer) (o : Option ℕ)
    → (open_socket answers s o).1 ≡ true
    → IsServing s (open_socket answers s o).0
unfolding open_socket finish_start
opened-IsServing answers s none = λ e. cc
opened-IsServing answers s (some fd) =
    if-both (λ (r : NtpServer × Bool). r.1 ≡ true → IsServing s r.0)
      (not (answers.address_known && answers.bound)) (close_socket s, false)
      (finish_start (record s { server_socket = some fd }), true) (λ e. cc)
      (λ e. record {
        is_running = refl;
        has_socket = λ p. cc;
        all_healthy = refl;
        same_table = refl;
        same_stats = refl;
      })

-- A server that has started is running, has a socket, holds all configured upstreams for healthy,
-- and has the table of connections and the statistics that it had before.
pub start-IsServing :
    (answers : SocketAnswers) (s : NtpServer)
    → (start answers s).1 ≡ true
    → IsServing s (start answers s).0
unfolding start
start-IsServing answers s =
    let P = λ (r : NtpServer × Bool). r.1 ≡ true → IsServing s r.0 in
    let tried = open_socket answers s answers.opened in
    let ready = secure_controls_ready s.config in
    if-both P s.running (s, false) (if not ready then (s, false) else tried) (λ e. cc)
      (if-both P (not ready) (s, false) tried (λ e. cc) (opened-IsServing answers s answers.opened))

closed_again : (s : NtpServer) → s.server_socket ≡ none → close_socket s ≡ s
closed_again s closed = ap (λ o. record s { server_socket = o }) (sym closed)

open_fails :
    (answers : SocketAnswers) (s : NtpServer) (o : Option ℕ)
    → s.server_socket ≡ none
    → (open_socket answers s o).1 ≡ false
    → (open_socket answers s o).0 ≡ s
unfolding open_socket
open_fails answers s none closed = λ e. closed_again s closed
open_fails answers s (some fd) closed =
    if-both (λ (r : NtpServer × Bool). r.1 ≡ false → r.0 ≡ s)
      (not (answers.address_known && answers.bound)) (close_socket s, false)
      (finish_start (record s { server_socket = some fd }), true) (λ e. closed_again s closed)
      (λ e. cc)

-- A start that fails leaves a server without a socket as it was.
start_fails :
    (answers : SocketAnswers) (s : NtpServer)
    → s.server_socket ≡ none
    → (start answers s).1 ≡ false
    → (start answers s).0 ≡ s
unfolding start
start_fails answers s closed =
    let P = λ (r : NtpServer × Bool). r.1 ≡ false → r.0 ≡ s in
    let tried = open_socket answers s answers.opened in
    let ready = secure_controls_ready s.config in
    if-both P s.running (s, false) (if not ready then (s, false) else tried) (λ e. refl)
      (if-both P (not ready) (s, false) tried (λ e. refl)
        (open_fails answers s answers.opened closed))

-- What a stop and a start leave of the table.
pub start-table :
    (answers : SocketAnswers) (s : NtpServer)
    → ((start answers s).0.active_connections ≡ s.active_connections)
      × ((start answers s).0.stats ≡ s.stats)
unfolding start open_socket finish_start
start-table answers s = ground arith

pub stop-table :
    (s : NtpServer)
    → IsRegistry s
    → ((stop s).active_connections ≡ s.active_connections) × ((stop s).stats ≡ s.stats)
unfolding stop
stop-table s w =
    let quiet = record s { running = false; upstream_sync = none } in
    let idle =
      cleanup_connections_idle quiet (record { all_active = w.all_active; counted = w.counted }) in
    if-both (λ (t : NtpServer). (t.active_connections ≡ s.active_connections) × (t.stats ≡ s.stats))
      (not s.running) s (close_socket (cleanup_connections quiet)) (refl, refl)
      (ap (λ (t : NtpServer). t.active_connections) idle, ap (λ (t : NtpServer). t.stats) idle)
