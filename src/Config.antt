-- ===== src/Config.antt =====
-- `NtpConfig` of include/simple-ntpd/config/config.hpp: the settings and their defaults.
-- Durations are the counts of their unit.
pub mod Fields
pub mod Settings
pub mod Options
pub mod Keys
pub mod CommandLine
pub mod Environment
pub mod File
pub mod Parser
pub mod Factory
pub mod Agreement
pub mod Equivalence
pub mod Limits
pub mod Ranges
pub mod Validate
mod Runs
mod Examples
use simple_ntpd.Common.{ℕ, Bool, true, false, List, [], ◌∷◌}
use simple_ntpd.Common.Int.{ℤ, pos}
use simple_ntpd.Common.Text.{Bytes, codes}
use simple_ntpd.Platform.{secondary_reference}

-- In each enumeration `other n` is a cast of a number that no enumerator has.
pub data AuthAlgorithm : Type 0 where
  none md5 sha1 sha256 : AuthAlgorithm
  other : ℤ → AuthAlgorithm

pub data UpstreamSelectionAlgorithm : Type 0 where
  round_robin random least_errors : UpstreamSelectionAlgorithm
  other : ℤ → UpstreamSelectionAlgorithm

pub data DegradationMode : Type 0 where
  normal reduced_functionality prioritize_trusted : DegradationMode
  other : ℤ → DegradationMode

pub data LogLevel : Type 0 where
  debug info warning error fatal : LogLevel
  other : ℤ → LogLevel

pub record NtpConfig : Type 0 where
  -- network
  pub listen_address : Bytes
  pub listen_port : ℕ
  pub enable_ipv6 : Bool
  pub max_connections : ℤ
  -- NTP server
  pub stratum : ℕ
  pub reference_id : Bytes
  pub reference_clock : Bytes
  pub upstream_servers : List Bytes
  pub sync_interval : ℤ
  pub timeout : ℤ
  -- logging
  pub log_file : Bytes
  pub log_level : LogLevel
  pub enable_console_logging : Bool
  pub enable_syslog : Bool
  pub log_json : Bool
  pub log_max_size_bytes : ℕ
  pub log_max_files : ℕ
  -- security
  pub enable_authentication : Bool
  pub authentication_key : Bytes
  pub authentication_algorithm : AuthAlgorithm
  pub authentication_keys : List (ℕ × Bytes)
  pub restrict_queries : Bool
  pub allowed_clients : List Bytes
  pub denied_clients : List Bytes
  pub enable_acl : Bool
  pub enable_rate_limiting : Bool
  pub connection_rate_limit_per_minute : ℕ
  pub request_rate_limit_per_minute : ℕ
  pub enable_ddos_protection : Bool
  pub ddos_anomaly_threshold_per_second : ℕ
  pub enable_encrypted_channels : Bool
  pub enable_certificate_validation : Bool
  pub enable_certificate_authentication : Bool
  pub enable_tls : Bool
  pub tls_cert_file : Bytes
  pub tls_key_file : Bytes
  pub tls_ca_file : Bytes
  -- performance
  pub worker_threads : ℕ
  pub max_packet_size : ℕ
  pub enable_statistics : Bool
  pub stats_interval : ℤ
  -- drift and leap seconds
  pub drift_file : Bytes
  pub enable_drift_compensation : Bool
  pub leap_second_file : Bytes
  pub enable_leap_second_handling : Bool
  -- reliability
  pub enable_automatic_failover : Bool
  pub enable_self_healing : Bool
  pub enable_graceful_degradation : Bool
  pub degradation_mode : DegradationMode
  pub enable_state_persistence : Bool
  pub state_file : Bytes
  pub backup_config_file : Bytes
  pub service_restart_limit : ℕ
  -- advanced
  pub upstream_selection_algorithm : UpstreamSelectionAlgorithm
  pub enable_upstream_load_balancing : Bool
  pub enable_upstream_failover : Bool
  pub enable_dynamic_stratum_adjustment : Bool
  pub enable_reference_clock_support : Bool
  pub reference_clock_source : Bytes
  -- private
  pub last_config_file : Bytes

-- `setDefaults`
unfoldable pub set_defaults : NtpConfig
set_defaults = record {
  listen_address = codes "0.0.0.0";
  listen_port = 123;
  enable_ipv6 = true;
  max_connections = pos 1000;
  stratum = secondary_reference;
  reference_id = codes "LOCL";
  reference_clock = codes "LOCAL";
  upstream_servers = codes "pool.ntp.org" ∷ codes "time.nist.gov" ∷ [];
  sync_interval = pos 64;
  timeout = pos 1000;
  log_file = codes "/var/log/simple-ntpd/simple-ntpd.log";
  log_level = info;
  enable_console_logging = true;
  enable_syslog = true;
  log_json = false;
  log_max_size_bytes = 0;
  log_max_files = 5;
  enable_authentication = false;
  authentication_key = [];
  authentication_algorithm = none;
  authentication_keys = [];
  restrict_queries = false;
  allowed_clients = codes "0.0.0.0/0" ∷ [];
  denied_clients = [];
  enable_acl = false;
  enable_rate_limiting = false;
  connection_rate_limit_per_minute = 120;
  request_rate_limit_per_minute = 600;
  enable_ddos_protection = false;
  ddos_anomaly_threshold_per_second = 200;
  enable_encrypted_channels = false;
  enable_certificate_validation = false;
  enable_certificate_authentication = false;
  enable_tls = false;
  tls_cert_file = [];
  tls_key_file = [];
  tls_ca_file = [];
  worker_threads = 4;
  max_packet_size = 1024;
  enable_statistics = true;
  stats_interval = pos 60;
  drift_file = codes "/var/lib/simple-ntpd/drift";
  enable_drift_compensation = true;
  leap_second_file = codes "/var/lib/simple-ntpd/leap-seconds.list";
  enable_leap_second_handling = true;
  enable_automatic_failover = false;
  enable_self_healing = false;
  enable_graceful_degradation = false;
  degradation_mode = normal;
  enable_state_persistence = false;
  state_file = codes "/var/lib/simple-ntpd/state.json";
  backup_config_file = codes "/var/lib/simple-ntpd/config.backup";
  service_restart_limit = 3;
  upstream_selection_algorithm = round_robin;
  enable_upstream_load_balancing = false;
  enable_upstream_failover = false;
  enable_dynamic_stratum_adjustment = false;
  enable_reference_clock_support = false;
  reference_clock_source = codes "local";
  last_config_file = [];
}
