-- ===== src/Config/Keys.antt =====
-- The keys of `ConfigParser::parseKeyValue` (src/simple-ntpd/config/parser.cpp) and what each sets.
use simple_ntpd.Common.{List, [], ◌∷◌, ◌++◌}
use simple_ntpd.Common.Text.{Bytes, codes}
use simple_ntpd.Config.Fields.{
  allowed_clients, authentication_key, backup_config_file, connection_rate_limit_per_minute,
  ddos_anomaly_threshold_per_second, denied_clients, drift_file, enable_acl, enable_authentication,
  enable_automatic_failover, enable_certificate_authentication, enable_certificate_validation,
  enable_console_logging, enable_ddos_protection, enable_drift_compensation,
  enable_dynamic_stratum_adjustment, enable_encrypted_channels, enable_graceful_degradation,
  enable_ipv6, enable_leap_second_handling, enable_rate_limiting, enable_reference_clock_support,
  enable_self_healing, enable_state_persistence, enable_statistics, enable_syslog, enable_tls,
  enable_upstream_failover, enable_upstream_load_balancing, leap_second_file, listen_address,
  log_file, max_connections, max_packet_size, reference_clock, reference_clock_source, reference_id,
  request_rate_limit_per_minute, restrict_queries, service_restart_limit, state_file,
  stats_interval, sync_interval, timeout, tls_ca_file, tls_cert_file, tls_key_file,
  upstream_servers, worker_threads,
}
use simple_ntpd.Config.Settings.{
  Setting, text, flag, port, stratum_value, level_value, auth_method, selection, signed, list,
  count, bounded,
}

-- The network and the server.
unfoldable pub network_keys : List (List Bytes × Setting)
network_keys =
    (codes "listen_address" ∷ codes "bind_address" ∷ [], text listen_address)
    ∷ (codes "listen_port" ∷ codes "port" ∷ [], port)
    ∷ (codes "enable_ipv6" ∷ codes "ipv6" ∷ [], flag enable_ipv6)
    ∷ (codes "max_connections" ∷ codes "max_conn" ∷ [], signed max_connections)
    ∷ (codes "stratum" ∷ [], stratum_value)
    ∷ (codes "reference_clock" ∷ codes "ref_clock" ∷ [], text reference_clock)
    ∷ (codes "reference_id" ∷ codes "ref_id" ∷ [], text reference_id)
    ∷ (codes "upstream_servers" ∷ codes "servers" ∷ [], list upstream_servers)
    ∷ (codes "sync_interval" ∷ [], signed sync_interval)
    ∷ (codes "timeout" ∷ [], signed timeout)
    ∷ []

-- Logging.
unfoldable pub logging_keys : List (List Bytes × Setting)
logging_keys =
    (codes "log_level" ∷ codes "loglevel" ∷ [], level_value)
    ∷ (codes "log_file" ∷ codes "logfile" ∷ [], text log_file)
    ∷ (codes "enable_console_logging" ∷ codes "console_log" ∷ [], flag enable_console_logging)
    ∷ (codes "enable_syslog" ∷ codes "syslog" ∷ [], flag enable_syslog)
    ∷ []

-- Authentication and access.
unfoldable pub security_keys : List (List Bytes × Setting)
security_keys =
    (codes "enable_authentication" ∷ codes "auth" ∷ [], flag enable_authentication)
    ∷ (codes "authentication_key" ∷ codes "auth_key" ∷ [], text authentication_key)
    ∷ (codes "authentication_algorithm" ∷ codes "auth_algorithm" ∷ [], auth_method)
    ∷ (codes "restrict_queries" ∷ codes "restrict" ∷ [], flag restrict_queries)
    ∷ (codes "enable_acl" ∷ codes "acl" ∷ [], flag enable_acl)
    ∷ (codes "allowed_clients" ∷ codes "allow" ∷ [], list allowed_clients)
    ∷ (codes "denied_clients" ∷ codes "deny" ∷ [], list denied_clients)
    ∷ (codes "enable_rate_limiting" ∷ codes "rate_limit" ∷ [], flag enable_rate_limiting)
    ∷ (
      codes "connection_rate_limit_per_minute" ∷ codes "conn_rate_limit" ∷ [],
      count connection_rate_limit_per_minute,
    )
    ∷ (
      codes "request_rate_limit_per_minute" ∷ codes "req_rate_limit" ∷ [],
      count request_rate_limit_per_minute,
    )
    ∷ (codes "enable_ddos_protection" ∷ codes "ddos_protection" ∷ [], flag enable_ddos_protection)
    ∷ (
      codes "ddos_anomaly_threshold_per_second" ∷ codes "ddos_threshold" ∷ [],
      count ddos_anomaly_threshold_per_second,
    )
    ∷ []

-- TLS.
unfoldable pub tls_keys : List (List Bytes × Setting)
tls_keys =
    (codes "enable_tls" ∷ codes "tls" ∷ [], flag enable_tls)
    ∷ (
      codes "enable_encrypted_channels" ∷ codes "encrypted_channels" ∷ [],
      flag enable_encrypted_channels,
    )
    ∷ (
      codes "enable_certificate_validation" ∷ codes "cert_validation" ∷ [],
      flag enable_certificate_validation,
    )
    ∷ (
      codes "enable_certificate_authentication" ∷ codes "cert_auth" ∷ [],
      flag enable_certificate_authentication,
    )
    ∷ (codes "tls_cert_file" ∷ [], text tls_cert_file)
    ∷ (codes "tls_key_file" ∷ [], text tls_key_file)
    ∷ (codes "tls_ca_file" ∷ [], text tls_ca_file)
    ∷ []

-- Performance, drift and leap seconds.
unfoldable pub performance_keys : List (List Bytes × Setting)
performance_keys =
    (codes "worker_threads" ∷ codes "threads" ∷ [], bounded worker_threads)
    ∷ (codes "max_packet_size" ∷ codes "packet_size" ∷ [], bounded max_packet_size)
    ∷ (codes "enable_statistics" ∷ codes "stats" ∷ [], flag enable_statistics)
    ∷ (codes "stats_interval" ∷ [], signed stats_interval)
    ∷ (codes "drift_file" ∷ codes "drift" ∷ [], text drift_file)
    ∷ (codes "enable_drift_compensation" ∷ codes "drift_comp" ∷ [], flag enable_drift_compensation)
    ∷ (codes "leap_second_file" ∷ codes "leap_seconds" ∷ [], text leap_second_file)
    ∷ (
      codes "enable_leap_second_handling" ∷ codes "leap_handling" ∷ [],
      flag enable_leap_second_handling,
    )
    ∷ []

-- Failover, self-healing and state.
unfoldable pub reliability_keys : List (List Bytes × Setting)
reliability_keys =
    (codes "enable_automatic_failover" ∷ codes "auto_failover" ∷ [], flag enable_automatic_failover)
    ∷ (codes "enable_self_healing" ∷ codes "self_healing" ∷ [], flag enable_self_healing)
    ∷ (
      codes "enable_graceful_degradation" ∷ codes "graceful_degradation" ∷ [],
      flag enable_graceful_degradation,
    )
    ∷ (
      codes "enable_state_persistence" ∷ codes "state_persistence" ∷ [],
      flag enable_state_persistence,
    )
    ∷ (codes "state_file" ∷ [], text state_file)
    ∷ (codes "backup_config_file" ∷ [], text backup_config_file)
    ∷ (codes "service_restart_limit" ∷ [], count service_restart_limit)
    ∷ []

-- Selection of upstreams and the rest.
unfoldable pub advanced_keys : List (List Bytes × Setting)
advanced_keys =
    (codes "upstream_selection_algorithm" ∷ codes "upstream_algorithm" ∷ [], selection)
    ∷ (
      codes "enable_upstream_load_balancing" ∷ codes "upstream_load_balancing" ∷ [],
      flag enable_upstream_load_balancing,
    )
    ∷ (
      codes "enable_upstream_failover" ∷ codes "upstream_failover" ∷ [],
      flag enable_upstream_failover,
    )
    ∷ (
      codes "enable_dynamic_stratum_adjustment" ∷ codes "dynamic_stratum" ∷ [],
      flag enable_dynamic_stratum_adjustment,
    )
    ∷ (
      codes "enable_reference_clock_support" ∷ codes "reference_clock_support" ∷ [],
      flag enable_reference_clock_support,
    )
    ∷ (codes "reference_clock_source" ∷ [], text reference_clock_source)
    ∷ []

-- The whole chain, in its order.
unfoldable pub keys : List (List Bytes × Setting)
unfolding network_keys logging_keys security_keys tls_keys performance_keys reliability_keys
    advanced_keys
keys =
    network_keys ++ logging_keys ++ security_keys ++ tls_keys ++ performance_keys
    ++ reliability_keys ++ advanced_keys
