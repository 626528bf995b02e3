-- ===== src/Config/Validate.antt =====
-- `NtpConfig::validateDetailed` of src/simple-ntpd/config/config.cpp. The messages have no
-- parameters, so each is a constructor; they are pushed in the order of the source.
pub mod Checks
pub mod Laws
use simple_ntpd.Common.{
  ℕ, Bool, true, false, not, ◌&&◌, ◌||◌, List, [], ◌∷◌, ◌++◌, ltb, leb, ◌==◌, if◌then◌else◌,
  is_empty, length, ◌|>◌,
}
use simple_ntpd.Common.Int.{ℤ, pos, ltb_ℤ}
use simple_ntpd.Common.Text.{Bytes}
use simple_ntpd.Config.{NtpConfig}

pub data ConfigError : Type 0 where
  listen_port_range stratum_range worker_threads_range max_connections_range : ConfigError
  max_packet_size_range sync_interval_range timeout_range stats_interval_range : ConfigError
  reference_id_length log_max_size_small log_max_files_range : ConfigError
  authentication_key_missing authentication_key_unused leap_second_file_missing : ConfigError
  stats_interval_missing allowed_clients_missing : ConfigError
  connection_rate_limit_zero request_rate_limit_zero ddos_threshold_zero : ConfigError
  tls_files_missing tls_ca_file_missing state_file_missing upstream_servers_missing : ConfigError

abbrev pub outside : ℕ → ℕ → ℕ → Bool
outside lo hi n = ltb n lo || ltb hi n

abbrev pub outside_ℤ : ℕ → ℕ → ℤ → Bool
outside_ℤ lo hi n = ltb_ℤ n (pos lo) || ltb_ℤ (pos hi) n

-- The tests of `validateDetailed` in their order, each with the error that it reports.
abbrev pub checks : NtpConfig → List (Bool × ConfigError)
checks c =
    (outside 1 65535 c.listen_port, listen_port_range)
    ∷ (ltb 15 c.stratum, stratum_range)
    ∷ (outside 1 64 c.worker_threads, worker_threads_range)
    ∷ (outside_ℤ 1 100000 c.max_connections, max_connections_range)
    ∷ (outside 48 8192 c.max_packet_size, max_packet_size_range)
    ∷ (outside_ℤ 1 86400 c.sync_interval, sync_interval_range)
    ∷ (outside_ℤ 10 60000 c.timeout, timeout_range)
    ∷ (outside_ℤ 1 3600 c.stats_interval, stats_interval_range)
    ∷ (not (length c.reference_id == 4), reference_id_length)
    ∷ (ltb 0 c.log_max_size_bytes && ltb c.log_max_size_bytes 1024, log_max_size_small)
    ∷ (outside 1 1000 c.log_max_files, log_max_files_range)
    ∷ (c.enable_authentication && is_empty c.authentication_key, authentication_key_missing)
    ∷ (
      not c.enable_authentication && not (is_empty c.authentication_key),
      authentication_key_unused,
    )
    ∷ (c.enable_leap_second_handling && is_empty c.leap_second_file, leap_second_file_missing)
    ∷ (c.enable_statistics && not (ltb_ℤ (pos 0) c.stats_interval), stats_interval_missing)
    ∷ (c.restrict_queries && is_empty c.allowed_clients, allowed_clients_missing)
    ∷ (
      c.enable_rate_limiting && c.connection_rate_limit_per_minute == 0,
      connection_rate_limit_zero,
    )
    ∷ (c.enable_rate_limiting && c.request_rate_limit_per_minute == 0, request_rate_limit_zero)
    ∷ (c.enable_ddos_protection && c.ddos_anomaly_threshold_per_second == 0, ddos_threshold_zero)
    ∷ (
      (c.enable_tls || c.enable_certificate_authentication)
          && (is_empty c.tls_cert_file || is_empty c.tls_key_file),
      tls_files_missing,
    )
    ∷ (c.enable_certificate_validation && is_empty c.tls_ca_file, tls_ca_file_missing)
    ∷ (c.enable_state_persistence && is_empty c.state_file, state_file_missing)
    ∷ (c.enable_automatic_failover && is_empty c.upstream_servers, upstream_servers_missing)
    ∷ []

-- Each `if` in turn pushes its error.
unfoldable pub run_checks : List ConfigError → List (Bool × ConfigError) → List ConfigError
run_checks errors [] = errors
run_checks errors ((failed, e) ∷ rest) =
    run_checks (if failed then errors ++ (e ∷ []) else errors) rest

-- `validateDetailed`: the errors. Its result is `errors.empty()`.
unfoldable pub validate_detailed : NtpConfig → List ConfigError
unfolding run_checks
validate_detailed c = run_checks [] (checks c)

-- `validate`
unfoldable pub validate : NtpConfig → Bool
unfolding validate_detailed
validate c = is_empty (validate_detailed c)
