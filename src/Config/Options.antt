-- ===== src/Config/Options.antt =====
-- The keys of `NtpConfig::parseCommandLineArg` (src/simple-ntpd/config/config.cpp) and what each sets.
use simple_ntpd.Common.{List, [], ◌∷◌, ◌++◌}
use simple_ntpd.Common.Text.{Bytes, codes}
use simple_ntpd.Config.Fields.{
  allowed_clients, authentication_key, backup_config_file, connection_rate_limit_per_minute,
  ddos_anomaly_threshold_per_second, denied_clients, drift_file, enable_acl, enable_authentication,
  enable_automatic_failover, enable_certificate_authentication, enable_certificate_validation,
  enable_console_logging, enable_ddos_protection, enable_drift_compensation,
  enable_dynamic_stratum_adjustment, enable_encrypted_channels, enable_graceful_degradation,
  enable_ipv6, enable_leap_second_handling, enable_rate_limiting, enable_reference_clock_support,
  enable_self_healing, enable_state_persistence, enable_statistics, enable_syslog, enable_tls,
  enable_upstream_failover, enable_upstream_load_balancing, leap_second_file, listen_address,
  log_file, log_json, log_max_files, max_connections, max_packet_size, reference_clock,
  reference_clock_source, reference_id, request_rate_limit_per_minute, restrict_queries,
  service_restart_limit, state_file, stats_interval, sync_interval, timeout, tls_ca_file,
  tls_cert_file, tls_key_file, upstream_servers, worker_threads,
}
use simple_ntpd.Config.Settings.{
  Setting, text, flag, port, stratum_value, level_value, auth_method, selection, signed, list,
  count, bounded,
}

pub data CliSetting : Type 0 where
  plain : Setting → CliSetting
  size key_list degradation : CliSetting

-- The network and the server.
unfoldable pub network_options : List (List Bytes × CliSetting)
network_options =
    (codes "listen_address" ∷ codes "bind_address" ∷ [], plain (text listen_address))
    ∷ (codes "listen_port" ∷ codes "port" ∷ [], plain port)
    ∷ (codes "enable_ipv6" ∷ codes "ipv6" ∷ [], plain (flag enable_ipv6))
    ∷ (codes "max_connections" ∷ codes "max_conn" ∷ [], plain (signed max_connections))
    ∷ (codes "stratum" ∷ [], plain stratum_value)
    ∷ (codes "reference_clock" ∷ codes "ref_clock" ∷ [], plain (text reference_clock))
    ∷ (codes "reference_id" ∷ codes "ref_id" ∷ [], plain (text reference_id))
    ∷ (codes "upstream_servers" ∷ codes "servers" ∷ [], plain (list upstream_servers))
    ∷ (codes "sync_interval" ∷ [], plain (signed sync_interval))
    ∷ (codes "timeout" ∷ [], plain (signed timeout))
    ∷ []

-- Logging.
unfoldable pub logging_options : List (List Bytes × CliSetting)
logging_options =
    (codes "log_level" ∷ codes "loglevel" ∷ [], plain level_value)
    ∷ (codes "log_file" ∷ codes "logfile" ∷ [], plain (text log_file))
    ∷ (
      codes "enable_console_logging" ∷ codes "console_log" ∷ [],
      plain (flag enable_console_logging),
    )
    ∷ (codes "enable_syslog" ∷ codes "syslog" ∷ [], plain (flag enable_syslog))
    ∷ (codes "log_json" ∷ codes "json_logs" ∷ [], plain (flag log_json))
    ∷ (codes "log_max_size_bytes" ∷ codes "log_max_size" ∷ [], size)
    ∷ (codes "log_max_files" ∷ [], plain (count log_max_files))
    ∷ []

-- Authentication and access.
unfoldable pub security_options : List (List Bytes × CliSetting)
security_options =
    (codes "enable_authentication" ∷ codes "auth" ∷ [], plain (flag enable_authentication))
    ∷ (codes "authentication_key" ∷ codes "auth_key" ∷ [], plain (text authentication_key))
    ∷ (codes "authentication_algorithm" ∷ codes "auth_algorithm" ∷ [], plain auth_method)
    ∷ (codes "authentication_keys" ∷ codes "auth_keys" ∷ [], key_list)
    ∷ (codes "restrict_queries" ∷ codes "restrict" ∷ [], plain (flag restrict_queries))
    ∷ (codes "enable_acl" ∷ codes "acl" ∷ [], plain (flag enable_acl))
    ∷ (codes "allowed_clients" ∷ codes "allow" ∷ [], plain (list allowed_clients))
    ∷ (codes "denied_clients" ∷ codes "deny" ∷ [], plain (list denied_clients))
    ∷ (codes "enable_rate_limiting" ∷ codes "rate_limit" ∷ [], plain (flag enable_rate_limiting))
    ∷ (
      codes "connection_rate_limit_per_minute" ∷ codes "conn_rate_limit" ∷ [],
      plain (count connection_rate_limit_per_minute),
    )
    ∷ (
      codes "request_rate_limit_per_minute" ∷ codes "req_rate_limit" ∷ [],
      plain (count request_rate_limit_per_minute),
    )
    ∷ (
      codes "enable_ddos_protection" ∷ codes "ddos_protection" ∷ [],
      plain (flag enable_ddos_protection),
    )
    ∷ (
      codes "ddos_anomaly_threshold_per_second" ∷ codes "ddos_threshold" ∷ [],
      plain (count ddos_anomaly_threshold_per_second),
    )
    ∷ []

-- TLS.
unfoldable pub tls_options : List (List Bytes × CliSetting)
tls_options =
    (codes "enable_tls" ∷ codes "tls" ∷ [], plain (flag enable_tls))
    ∷ (
      codes "enable_encrypted_channels" ∷ codes "encrypted_channels" ∷ [],
      plain (flag enable_encrypted_channels),
    )
    ∷ (
      codes "enable_certificate_validation" ∷ codes "cert_validation" ∷ [],
      plain (flag enable_certificate_validation),
    )
    ∷ (
      codes "enable_certificate_authentication" ∷ codes "cert_auth" ∷ [],
      plain (flag enable_certificate_authentication),
    )
    ∷ (codes "tls_cert_file" ∷ [], plain (text tls_cert_file))
    ∷ (codes "tls_key_file" ∷ [], plain (text tls_key_file))
    ∷ (codes "tls_ca_file" ∷ [], plain (text tls_ca_file))
    ∷ []

-- Performance, drift and leap seconds.
unfoldable pub performance_options : List (List Bytes × CliSetting)
performance_options =
    (codes "worker_threads" ∷ codes "threads" ∷ [], plain (bounded worker_threads))
    ∷ (codes "max_packet_size" ∷ codes "packet_size" ∷ [], plain (bounded max_packet_size))
    ∷ (codes "enable_statistics" ∷ codes "stats" ∷ [], plain (flag enable_statistics))
    ∷ (codes "stats_interval" ∷ [], plain (signed stats_interval))
    ∷ (codes "drift_file" ∷ codes "drift" ∷ [], plain (text drift_file))
    ∷ (
      codes "enable_drift_compensation" ∷ codes "drift_comp" ∷ [],
      plain (flag enable_drift_compensation),
    )
    ∷ (codes "leap_second_file" ∷ codes "leap_seconds" ∷ [], plain (text leap_second_file))
    ∷ (
      codes "enable_leap_second_handling" ∷ codes "leap_handling" ∷ [],
      plain (flag enable_leap_second_handling),
    )
    ∷ []

-- Failover, self-healing and state.
unfoldable pub reliability_options : List (List Bytes × CliSetting)
reliability_options =
    (
      codes "enable_automatic_failover" ∷ codes "auto_failover" ∷ [],
      plain (flag enable_automatic_failover),
    )
    ∷ (codes "enable_self_healing" ∷ codes "self_healing" ∷ [], plain (flag enable_self_healing))
    ∷ (
      codes "enable_graceful_degradation" ∷ codes "graceful_degradation" ∷ [],
      plain (flag enable_graceful_degradation),
    )
    ∷ (codes "degradation_mode" ∷ [], degradation)
    ∷ (
      codes "enable_state_persistence" ∷ codes "state_persistence" ∷ [],
      plain (flag enable_state_persistence),
    )
    ∷ (codes "state_file" ∷ [], plain (text state_file))
    ∷ (codes "backup_config_file" ∷ [], plain (text backup_config_file))
    ∷ (codes "service_restart_limit" ∷ [], plain (count service_restart_limit))
    ∷ []

-- Selection of upstreams and the rest.
unfoldable pub advanced_options : List (List Bytes × CliSetting)
advanced_options =
    (codes "upstream_selection_algorithm" ∷ codes "upstream_algorithm" ∷ [], plain selection)
    ∷ (
      codes "enable_upstream_load_balancing" ∷ codes "upstream_load_balancing" ∷ [],
      plain (flag enable_upstream_load_balancing),
    )
    ∷ (
      codes "enable_upstream_failover" ∷ codes "upstream_failover" ∷ [],
      plain (flag enable_upstream_failover),
    )
    ∷ (
      codes "enable_dynamic_stratum_adjustment" ∷ codes "dynamic_stratum" ∷ [],
      plain (flag enable_dynamic_stratum_adjustment),
    )
    ∷ (
      codes "enable_reference_clock_support" ∷ codes "reference_clock_support" ∷ [],
      plain (flag enable_reference_clock_support),
    )
    ∷ (codes "reference_clock_source" ∷ [], plain (text reference_clock_source))
    ∷ []

-- The whole chain, in its order.
unfoldable pub options : List (List Bytes × CliSetting)
unfolding network_options logging_options security_options tls_options performance_options
    reliability_options advanced_options
options =
    network_options ++ logging_options ++ security_options ++ tls_options ++ performance_options
    ++ reliability_options ++ advanced_options
