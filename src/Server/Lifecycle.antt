-- ===== src/Server/Lifecycle.antt =====
-- `start`, `stop`, `initializeSocket`, `bindSocket` and `closeSocket` of
-- src/simple-ntpd/core/server.cpp. The threads and the state and backup files are left out; loading
-- the state file only logs.
pub mod Startup
use simple_ntpd.Common.{
  ℕ, Bool, true, false, not, ◌&&◌, ◌||◌, Option, none, some, List, [], ◌∷◌, if◌then◌else◌, is_empty,
}
use simple_ntpd.Config.{NtpConfig}
use simple_ntpd.Upstream.{initial_sync}
use simple_ntpd.Server.{NtpServer}
use simple_ntpd.Server.Connections.{cleanup_connections}

-- What `socket` gives, whether `inet_pton` reads the listen address, and whether `bind` succeeds.
pub record SocketAnswers : Type 0 where
  pub opened : Option ℕ
  pub address_known : Bool
  pub bound : Bool

-- The check of the certificate files at the start.
unfoldable pub tls_files_present : NtpConfig → Bool
tls_files_present c =
    if c.enable_certificate_validation && is_empty c.tls_ca_file
    then false
    else not (
        (c.enable_tls || c.enable_certificate_authentication)
        && (is_empty c.tls_cert_file || is_empty c.tls_key_file))

unfoldable pub secure_controls_ready : NtpConfig → Bool
unfolding tls_files_present
secure_controls_ready c =
    if c.enable_tls || c.enable_certificate_authentication || c.enable_certificate_validation
    then tls_files_present c
    else true

abbrev pub close_socket : NtpServer → NtpServer
close_socket s = record s { server_socket = none }

-- Behind the socket; `upstream_sync_` keeps its value if no upstream is configured.
unfoldable pub finish_start : NtpServer → NtpServer
finish_start s = record s {
  running = true;
  healthy_upstreams = s.config.upstream_servers;
  upstream_sync =
      if not (is_empty s.config.upstream_servers) then some initial_sync else s.upstream_sync;
}

-- `initializeSocket` and `bindSocket`, then the rest.
unfoldable pub open_socket : SocketAnswers → NtpServer → Option ℕ → NtpServer × Bool
unfolding finish_start
open_socket answers s none = (close_socket s, false)
open_socket answers s (some fd) =
    if not (answers.address_known && answers.bound)
    then (close_socket s, false)
    else (finish_start (record s { server_socket = some fd }), true)

unfoldable pub start : SocketAnswers → NtpServer → NtpServer × Bool
unfolding open_socket secure_controls_ready
start answers s =
    if s.running
    then (s, false)
    else if not (secure_controls_ready s.config)
    then (s, false)
    else open_socket answers s answers.opened

unfoldable pub stop : NtpServer → NtpServer
stop s =
    if not s.running
    then s
    else close_socket (cleanup_connections (record s { running = false; upstream_sync = none }))
