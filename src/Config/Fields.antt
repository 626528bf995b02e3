-- ===== src/Config/Fields.antt =====
-- The assignable fields of `NtpConfig` (include/simple-ntpd/config/config.hpp), by type, and the
-- assignment to each. The readers of settings in config.cpp and parser.cpp go through these.
use simple_ntpd.Common.{ℕ, Bool, List}
use simple_ntpd.Common.Int.{ℤ}
use simple_ntpd.Common.Text.{Bytes}
use simple_ntpd.Config.{NtpConfig}

pub data TextField : Type 0 where
  listen_address reference_clock reference_id log_file authentication_key : TextField
  tls_cert_file tls_key_file tls_ca_file drift_file leap_second_file state_file : TextField
  backup_config_file reference_clock_source : TextField

pub data FlagField : Type 0 where
  enable_ipv6 enable_console_logging enable_syslog log_json : FlagField
  enable_authentication restrict_queries enable_acl enable_rate_limiting : FlagField
  enable_ddos_protection enable_tls enable_encrypted_channels : FlagField
  enable_certificate_validation enable_certificate_authentication : FlagField
  enable_statistics enable_drift_compensation enable_leap_second_handling : FlagField
  enable_automatic_failover enable_self_healing enable_graceful_degradation : FlagField
  enable_state_persistence enable_upstream_load_balancing : FlagField
  enable_upstream_failover enable_dynamic_stratum_adjustment : FlagField
  enable_reference_clock_support : FlagField

pub data SignedField : Type 0 where
  max_connections sync_interval timeout stats_interval : SignedField

pub data CountField : Type 0 where
  log_max_files connection_rate_limit_per_minute request_rate_limit_per_minute : CountField
  ddos_anomaly_threshold_per_second service_restart_limit : CountField

pub data BoundedField : Type 0 where
  worker_threads max_packet_size : BoundedField

pub data ListField : Type 0 where
  upstream_servers allowed_clients denied_clients : ListField

-- A `std::string`.
unfoldable pub set_text : TextField → Bytes → NtpConfig → NtpConfig
set_text listen_address v c = record c { listen_address = v }
set_text reference_clock v c = record c { reference_clock = v }
set_text reference_id v c = record c { reference_id = v }
set_text log_file v c = record c { log_file = v }
set_text authentication_key v c = record c { authentication_key = v }
set_text tls_cert_file v c = record c { tls_cert_file = v }
set_text tls_key_file v c = record c { tls_key_file = v }
set_text tls_ca_file v c = record c { tls_ca_file = v }
set_text drift_file v c = record c { drift_file = v }
set_text leap_second_file v c = record c { leap_second_file = v }
set_text state_file v c = record c { state_file = v }
set_text backup_config_file v c = record c { backup_config_file = v }
set_text reference_clock_source v c = record c { reference_clock_source = v }

-- A `bool`.
unfoldable pub set_flag : FlagField → Bool → NtpConfig → NtpConfig
set_flag enable_ipv6 v c = record c { enable_ipv6 = v }
set_flag enable_console_logging v c = record c { enable_console_logging = v }
set_flag enable_syslog v c = record c { enable_syslog = v }
set_flag log_json v c = record c { log_json = v }
set_flag enable_authentication v c = record c { enable_authentication = v }
set_flag restrict_queries v c = record c { restrict_queries = v }
set_flag enable_acl v c = record c { enable_acl = v }
set_flag enable_rate_limiting v c = record c { enable_rate_limiting = v }
set_flag enable_ddos_protection v c = record c { enable_ddos_protection = v }
set_flag enable_tls v c = record c { enable_tls = v }
set_flag enable_encrypted_channels v c = record c { enable_encrypted_channels = v }
set_flag enable_certificate_validation v c = record c { enable_certificate_validation = v }
set_flag enable_certificate_authentication v c = record c { enable_certificate_authentication = v }
set_flag enable_statistics v c = record c { enable_statistics = v }
set_flag enable_drift_compensation v c = record c { enable_drift_compensation = v }
set_flag enable_leap_second_handling v c = record c { enable_leap_second_handling = v }
set_flag enable_automatic_failover v c = record c { enable_automatic_failover = v }
set_flag enable_self_healing v c = record c { enable_self_healing = v }
set_flag enable_graceful_degradation v c = record c { enable_graceful_degradation = v }
set_flag enable_state_persistence v c = record c { enable_state_persistence = v }
set_flag enable_upstream_load_balancing v c = record c { enable_upstream_load_balancing = v }
set_flag enable_upstream_failover v c = record c { enable_upstream_failover = v }
set_flag enable_dynamic_stratum_adjustment v c = record c { enable_dynamic_stratum_adjustment = v }
set_flag enable_reference_clock_support v c = record c { enable_reference_clock_support = v }

-- An `int`, or a duration of so many units.
unfoldable pub set_signed : SignedField → ℤ → NtpConfig → NtpConfig
set_signed max_connections v c = record c { max_connections = v }
set_signed sync_interval v c = record c { sync_interval = v }
set_signed timeout v c = record c { timeout = v }
set_signed stats_interval v c = record c { stats_interval = v }

-- A `uint32_t`.
unfoldable pub set_count : CountField → ℕ → NtpConfig → NtpConfig
set_count log_max_files v c = record c { log_max_files = v }
set_count connection_rate_limit_per_minute v c = record c { connection_rate_limit_per_minute = v }
set_count request_rate_limit_per_minute v c = record c { request_rate_limit_per_minute = v }
set_count ddos_anomaly_threshold_per_second v c = record c { ddos_anomaly_threshold_per_second = v }
set_count service_restart_limit v c = record c { service_restart_limit = v }

-- A `size_t`.
unfoldable pub set_bounded : BoundedField → ℕ → NtpConfig → NtpConfig
set_bounded worker_threads v c = record c { worker_threads = v }
set_bounded max_packet_size v c = record c { max_packet_size = v }

-- A vector of strings.
unfoldable pub set_list : ListField → List Bytes → NtpConfig → NtpConfig
set_list upstream_servers v c = record c { upstream_servers = v }
set_list allowed_clients v c = record c { allowed_clients = v }
set_list denied_clients v c = record c { denied_clients = v }
