-- ===== src/Server.antt =====
-- `NtpServer` of include/simple-ntpd/core/server.hpp and src/simple-ntpd/core/server.cpp: the state.
-- The configuration is not null, since the constructor reads through it. Threads, locks and
-- logging are left out: each function is what one thread does, with no other in between.
pub mod Security
pub mod Connections
pub mod Upstreams
pub mod Process
pub mod Lifecycle
pub mod Receive
pub mod Reload
pub mod Workers
pub mod State
pub mod Reports
pub mod Watch
pub mod Lifetime
mod Runs
mod Examples
use simple_ntpd.Common.{ℕ, ◌-◌, ◌^◌, Bool, false, List, [], Option, none, some}
use simple_ntpd.Common.Text.{Bytes}
use simple_ntpd.Config.{NtpConfig}
use simple_ntpd.Connection.{NtpConnection, add_u64}
use simple_ntpd.Upstream.{SyncState}

pub record NtpServerStats : Type 0 where
  pub total_connections : ℕ
  pub active_connections : ℕ
  pub total_requests : ℕ
  pub total_responses : ℕ
  pub total_bytes_transferred : ℕ
  pub total_errors : ℕ
  pub total_request_processing_time_us : ℕ
  pub processed_request_count : ℕ
  pub max_request_processing_time_us : ℕ
  pub min_request_processing_time_us : ℕ

-- `UINT64_MAX`
abbrev pub u64_max : ℕ
u64_max = 2 ^ 64 - 1

abbrev pub no_stats : NtpServerStats
no_stats = record {
  total_connections = 0;
  active_connections = 0;
  total_requests = 0;
  total_responses = 0;
  total_bytes_transferred = 0;
  total_errors = 0;
  total_request_processing_time_us = 0;
  processed_request_count = 0;
  max_request_processing_time_us = 0;
  min_request_processing_time_us = u64_max;
}

-- A client's time bucket and the count in it.
abbrev pub Buckets : Type 0
Buckets = List (Bytes × (ℕ × ℕ))

pub record NtpServer : Type 0 where
  pub config : NtpConfig
  pub running : Bool
  pub server_socket : Option ℕ  -- `none` is `INVALID_SOCKET`
  pub server_address : Bytes
  pub server_port : ℕ
  pub active_connections : List (Bytes × NtpConnection)
  pub stats : NtpServerStats
  pub restart_count : ℕ
  pub healthy_upstreams : List Bytes
  pub upstream_rr_index : ℕ
  pub connection_rate_buckets : Buckets
  pub request_second_buckets : Buckets
  pub upstream_sync : Option SyncState

-- The constructor
abbrev pub new_server : NtpConfig → NtpServer
new_server config = record {
  config = config;
  running = false;
  server_socket = none;
  server_address = config.listen_address;
  server_port = config.listen_port;
  active_connections = [];
  stats = no_stats;
  restart_count = 0;
  healthy_upstreams = [];
  upstream_rr_index = 0;
  connection_rate_buckets = [];
  request_second_buckets = [];
  upstream_sync = none;
}

-- `stats_.total_errors++`
abbrev pub count_error : NtpServer → NtpServer
count_error s = record s {
  stats = record s.stats { total_errors = add_u64 s.stats.total_errors 1 };
}
