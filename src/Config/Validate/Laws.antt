-- ===== src/Config/Validate/Laws.antt =====
-- Which configurations `validate` accepts.
use simple_ntpd.Common.{◌≤◌, ◌≡◌, ◌≢◌, ◌↔◌, ◌⊎◌, true, false, [], is_empty_iff, length, All}
use simple_ntpd.Common.Int.{pos, ◌≤ℤ◌}
use simple_ntpd.Config.{NtpConfig}
use simple_ntpd.Config.Validate.{checks, validate}
use simple_ntpd.Config.Validate.Checks.{
  Passes, run_checks_iff, outside_iff, outside_ℤ_iff, flag_list_iff, unused_list_iff, flag_zero_iff,
  either_files_iff, size_iff, four_iff, stratum_iff, stats_interval_redundant,
}

-- What a configuration has to satisfy.
pub record IsUsable (c : NtpConfig) : Type 0 where
  pub listen_port_range : (1 ≤ c.listen_port) × (c.listen_port ≤ 65535)
  pub stratum_range : c.stratum ≤ 15
  pub worker_threads_range : (1 ≤ c.worker_threads) × (c.worker_threads ≤ 64)
  pub max_connections_range : (pos 1 ≤ℤ c.max_connections) × (c.max_connections ≤ℤ pos 100000)
  pub max_packet_size_range : (48 ≤ c.max_packet_size) × (c.max_packet_size ≤ 8192)
  pub sync_interval_range : (pos 1 ≤ℤ c.sync_interval) × (c.sync_interval ≤ℤ pos 86400)
  pub timeout_range : (pos 10 ≤ℤ c.timeout) × (c.timeout ≤ℤ pos 60000)
  pub stats_interval_range : (pos 1 ≤ℤ c.stats_interval) × (c.stats_interval ≤ℤ pos 3600)
  pub reference_id_length : length c.reference_id ≡ 4
  pub log_max_size : (c.log_max_size_bytes ≡ 0) ⊎ (1024 ≤ c.log_max_size_bytes)
  pub log_max_files_range : (1 ≤ c.log_max_files) × (c.log_max_files ≤ 1000)
  pub key_present : c.enable_authentication ≡ true → c.authentication_key ≢ []
  pub key_absent : c.enable_authentication ≡ false → c.authentication_key ≡ []
  pub leap_file : c.enable_leap_second_handling ≡ true → c.leap_second_file ≢ []
  pub clients : c.restrict_queries ≡ true → c.allowed_clients ≢ []
  pub connection_limit : c.enable_rate_limiting ≡ true → c.connection_rate_limit_per_minute ≢ 0
  pub request_limit : c.enable_rate_limiting ≡ true → c.request_rate_limit_per_minute ≢ 0
  pub ddos_threshold : c.enable_ddos_protection ≡ true → c.ddos_anomaly_threshold_per_second ≢ 0
  pub tls_files :
      (c.enable_tls ≡ true) ⊎ (c.enable_certificate_authentication ≡ true)
      → (c.tls_cert_file ≢ []) × (c.tls_key_file ≢ [])
  pub ca_file : c.enable_certificate_validation ≡ true → c.tls_ca_file ≢ []
  pub state_file : c.enable_state_persistence ≡ true → c.state_file ≢ []
  pub upstreams : c.enable_automatic_failover ≡ true → c.upstream_servers ≢ []

module _ (c : NtpConfig) where
  usable : All Passes (checks c) → IsUsable c
  usable
        ((
          port,
          (
            stratum,
            (
              workers,
              (
                conns,
                (
                  packet,
                  (
                    sync,
                    (
                      timeout,
                      (
                        stats,
                        (
                          id,
                          (
                            size,
                            (
                              files,
                              (
                                key,
                                (
                                  unused,
                                  (
                                    leap,
                                    (
                                      _,
                                      (
                                        clients,
                                        (
                                          conn_rate,
                                          (req_rate, (ddos, (tls, (ca, (state, (up, _)))))),
                                        ),
                                      ),
                                    ),
                                  ),
                                ),
                              ),
                            ),
                          ),
                        ),
                      ),
                    ),
                  ),
                ),
              ),
            ),
          ),
        )) =
      record {
        listen_port_range = (outside_iff 1 65535 _).0 port;
        stratum_range = (stratum_iff _).0 stratum;
        worker_threads_range = (outside_iff 1 64 _).0 workers;
        max_connections_range = (outside_ℤ_iff 1 100000 _).0 conns;
        max_packet_size_range = (outside_iff 48 8192 _).0 packet;
        sync_interval_range = (outside_ℤ_iff 1 86400 _).0 sync;
        timeout_range = (outside_ℤ_iff 10 60000 _).0 timeout;
        stats_interval_range = (outside_ℤ_iff 1 3600 _).0 stats;
        reference_id_length = (four_iff _).0 id;
        log_max_size = (size_iff _).0 size;
        log_max_files_range = (outside_iff 1 1000 _).0 files;
        key_present = (flag_list_iff _ _).0 key;
        key_absent = (unused_list_iff _ _).0 unused;
        leap_file = (flag_list_iff _ _).0 leap;
        clients = (flag_list_iff _ _).0 clients;
        connection_limit = (flag_zero_iff _ _).0 conn_rate;
        request_limit = (flag_zero_iff _ _).0 req_rate;
        ddos_threshold = (flag_zero_iff _ _).0 ddos;
        tls_files = (either_files_iff _ _ _ _).0 tls;
        ca_file = (flag_list_iff _ _).0 ca;
        state_file = (flag_list_iff _ _).0 state;
        upstreams = (flag_list_iff _ _).0 up;
      }

  All-pass : IsUsable c → All Passes (checks c)
  All-pass u = (
    (outside_iff 1 65535 _).1 u.listen_port_range,
    (
      (stratum_iff _).1 u.stratum_range,
      (
        (outside_iff 1 64 _).1 u.worker_threads_range,
        (
          (outside_ℤ_iff 1 100000 _).1 u.max_connections_range,
          (
            (outside_iff 48 8192 _).1 u.max_packet_size_range,
            (
              (outside_ℤ_iff 1 86400 _).1 u.sync_interval_range,
              (
                (outside_ℤ_iff 10 60000 _).1 u.timeout_range,
                (
                  (outside_ℤ_iff 1 3600 _).1 u.stats_interval_range,
                  (
                    (four_iff _).1 u.reference_id_length,
                    (
                      (size_iff _).1 u.log_max_size,
                      (
                        (outside_iff 1 1000 _).1 u.log_max_files_range,
                        (
                          (flag_list_iff _ _).1 u.key_present,
                          (
                            (unused_list_iff _ _).1 u.key_absent,
                            (
                              (flag_list_iff _ _).1 u.leap_file,
                              (
                                stats_interval_redundant _ _ u.stats_interval_range.0,
                                (
                                  (flag_list_iff _ _).1 u.clients,
                                  (
                                    (flag_zero_iff _ _).1 u.connection_limit,
                                    (
                                      (flag_zero_iff _ _).1 u.request_limit,
                                      (
                                        (flag_zero_iff _ _).1 u.ddos_threshold,
                                        (
                                          (either_files_iff _ _ _ _).1 u.tls_files,
                                          (
                                            (flag_list_iff _ _).1 u.ca_file,
                                            (
                                              (flag_list_iff _ _).1 u.state_file,
                                              ((flag_list_iff _ _).1 u.upstreams, tt),
                                            ),
                                          ),
                                        ),
                                      ),
                                    ),
                                  ),
                                ),
                              ),
                            ),
                          ),
                        ),
                      ),
                    ),
                  ),
                ),
              ),
            ),
          ),
        ),
      ),
    ),
  )

-- validate accepts a configuration exactly if it is usable: the ranges, lengths, files and lists
-- that the record IsUsable names.
pub validate_iff : (c : NtpConfig) → (validate c ≡ true) ↔ IsUsable c
unfolding validate
validate_iff c = (
  (λ h. usable c ((run_checks_iff (checks c)).0 ((is_empty_iff _).0 h))),
  (λ u. (is_empty_iff _).1 ((run_checks_iff (checks c)).1 (All-pass c u))),
)
