-- ===== src/Config/Environment.antt =====
-- `applyEnvironmentOverrides` and `loadFromCommandLine` (src/simple-ntpd/config/config.cpp).
-- `getenv` is the environment: `none` for a variable that is not set.
pub mod Twice
use simple_ntpd.Common.{
  ℕ, ◌%◌, ◌^◌, Bool, true, ◌||◌, Option, none, some, List, ◌==◌, if◌then◌else◌,
}
use simple_ntpd.Common.Int.{ℤ, pos, negsuc, to_unsigned, to_signed}
use simple_ntpd.Common.Text.{Bytes, codes, equal, lower, stoi, stoull, stoll}
use simple_ntpd.Config.{NtpConfig, AuthAlgorithm, UpstreamSelectionAlgorithm, DegradationMode}
use simple_ntpd.Config.Settings.{level_of}
use simple_ntpd.Config.CommandLine.{parse_arguments}

-- `static_cast` of a number to the other three enumerations
unfoldable pub algorithm_number : ℤ → AuthAlgorithm
algorithm_number (pos n) =
    if n == 0
    then AuthAlgorithm.none
    else if n == 1
    then AuthAlgorithm.md5
    else if n == 2
    then AuthAlgorithm.sha1
    else if n == 3
    then AuthAlgorithm.sha256
    else AuthAlgorithm.other (pos n)
algorithm_number (negsuc n) = AuthAlgorithm.other (negsuc n)

unfoldable pub degradation_number : ℤ → DegradationMode
degradation_number (pos n) =
    if n == 0
    then DegradationMode.normal
    else if n == 1
    then DegradationMode.reduced_functionality
    else if n == 2
    then DegradationMode.prioritize_trusted
    else DegradationMode.other (pos n)
degradation_number (negsuc n) = DegradationMode.other (negsuc n)

unfoldable pub selection_number : ℤ → UpstreamSelectionAlgorithm
selection_number (pos n) =
    if n == 0
    then UpstreamSelectionAlgorithm.round_robin
    else if n == 1
    then UpstreamSelectionAlgorithm.random
    else if n == 2
    then UpstreamSelectionAlgorithm.least_errors
    else UpstreamSelectionAlgorithm.other (pos n)
selection_number (negsuc n) = UpstreamSelectionAlgorithm.other (negsuc n)

-- A variable that is not set, or whose conversion throws, leaves the old value.
abbrev pub or_old {ℓ} : {A : Type ℓ} → Option A → A → A
or_old none old = old
or_old (some new) old = new

abbrev pub apply_number {ℓ κ} :
    {N : Type ℓ} {A : Type κ} → (Bytes → Option N) → (N → A) → Option Bytes → A → A
apply_number read cast none old = old
apply_number read cast (some v) old = elim (read v) [ none ↦ old | some n ↦ cast n ]

abbrev pub apply_string : Option Bytes → Bytes → Bytes
apply_string v old = or_old v old

unfoldable pub is_on : Bytes → Bool
is_on s =
    equal s (codes "1")
    || (equal s (codes "true") || (equal s (codes "yes") || equal s (codes "on")))

abbrev pub apply_bool : Option Bytes → Bool → Bool
apply_bool none old = old
apply_bool (some v) old = is_on (lower v)

-- To an unsigned integer of so many values.
abbrev pub apply_unsigned : ℕ → Option Bytes → ℕ → ℕ
apply_unsigned values = apply_number stoull (λ n. n % values)

-- To an `int`.
abbrev pub apply_int : Option Bytes → ℤ → ℤ
apply_int = apply_number stoll (λ n. to_signed (2 ^ 32) (to_unsigned (2 ^ 32) n))

-- To the count of a duration.
abbrev pub apply_duration : Option Bytes → ℤ → ℤ
apply_duration = apply_number stoll (λ n. n)

-- To an enumeration.
abbrev pub apply_enum {ℓ} : {E : Type ℓ} → (ℤ → E) → Option Bytes → E → E
apply_enum cast = apply_number stoi cast

-- Every variable is read once and sets one field.
unfoldable pub apply_environment_overrides : (Bytes → Option Bytes) → NtpConfig → NtpConfig
unfolding is_on
apply_environment_overrides getenv c = record c {
  listen_address = apply_string (getenv (codes "SIMPLE_NTPD_LISTEN_ADDRESS")) c.listen_address;
  listen_port = apply_unsigned (2 ^ 16) (getenv (codes "SIMPLE_NTPD_LISTEN_PORT")) c.listen_port;
  max_connections = apply_int (getenv (codes "SIMPLE_NTPD_MAX_CONNECTIONS")) c.max_connections;
  worker_threads =
      apply_unsigned (2 ^ 64) (getenv (codes "SIMPLE_NTPD_WORKER_THREADS")) c.worker_threads;
  max_packet_size =
      apply_unsigned (2 ^ 64) (getenv (codes "SIMPLE_NTPD_MAX_PACKET_SIZE")) c.max_packet_size;
  reference_id = apply_string (getenv (codes "SIMPLE_NTPD_REFERENCE_ID")) c.reference_id;
  reference_clock = apply_string (getenv (codes "SIMPLE_NTPD_REFERENCE_CLOCK")) c.reference_clock;
  enable_statistics =
      apply_bool (getenv (codes "SIMPLE_NTPD_ENABLE_STATISTICS")) c.enable_statistics;
  stats_interval =
      apply_duration (getenv (codes "SIMPLE_NTPD_STATS_INTERVAL_SEC")) c.stats_interval;
  sync_interval = apply_duration (getenv (codes "SIMPLE_NTPD_SYNC_INTERVAL_SEC")) c.sync_interval;
  timeout = apply_duration (getenv (codes "SIMPLE_NTPD_TIMEOUT_MS")) c.timeout;
  log_file = apply_string (getenv (codes "SIMPLE_NTPD_LOG_FILE")) c.log_file;
  log_level = apply_enum level_of (getenv (codes "SIMPLE_NTPD_LOG_LEVEL")) c.log_level;
  log_json = apply_bool (getenv (codes "SIMPLE_NTPD_LOG_JSON")) c.log_json;
  log_max_size_bytes =
      apply_unsigned (2 ^ 64) (getenv (codes "SIMPLE_NTPD_LOG_MAX_SIZE_BYTES"))
        c.log_max_size_bytes;
  log_max_files =
      apply_unsigned (2 ^ 32) (getenv (codes "SIMPLE_NTPD_LOG_MAX_FILES")) c.log_max_files;
  enable_syslog = apply_bool (getenv (codes "SIMPLE_NTPD_ENABLE_SYSLOG")) c.enable_syslog;
  enable_console_logging =
      apply_bool (getenv (codes "SIMPLE_NTPD_ENABLE_CONSOLE_LOGGING")) c.enable_console_logging;
  enable_authentication =
      apply_bool (getenv (codes "SIMPLE_NTPD_ENABLE_AUTHENTICATION")) c.enable_authentication;
  authentication_key = apply_string (getenv (codes "SIMPLE_NTPD_AUTH_KEY")) c.authentication_key;
  authentication_algorithm =
      apply_enum algorithm_number (getenv (codes "SIMPLE_NTPD_AUTH_ALGORITHM"))
        c.authentication_algorithm;
  enable_acl = apply_bool (getenv (codes "SIMPLE_NTPD_ENABLE_ACL")) c.enable_acl;
  restrict_queries = apply_bool (getenv (codes "SIMPLE_NTPD_RESTRICT_QUERIES")) c.restrict_queries;
  enable_rate_limiting =
      apply_bool (getenv (codes "SIMPLE_NTPD_ENABLE_RATE_LIMITING")) c.enable_rate_limiting;
  connection_rate_limit_per_minute =
      apply_unsigned (2 ^ 32) (getenv (codes "SIMPLE_NTPD_CONN_RATE_LIMIT_PER_MIN"))
        c.connection_rate_limit_per_minute;
  request_rate_limit_per_minute =
      apply_unsigned (2 ^ 32) (getenv (codes "SIMPLE_NTPD_REQ_RATE_LIMIT_PER_MIN"))
        c.request_rate_limit_per_minute;
  enable_ddos_protection =
      apply_bool (getenv (codes "SIMPLE_NTPD_ENABLE_DDOS_PROTECTION")) c.enable_ddos_protection;
  ddos_anomaly_threshold_per_second =
      apply_unsigned (2 ^ 32) (getenv (codes "SIMPLE_NTPD_DDOS_THRESHOLD_PER_SEC"))
        c.ddos_anomaly_threshold_per_second;
  enable_tls = apply_bool (getenv (codes "SIMPLE_NTPD_ENABLE_TLS")) c.enable_tls;
  enable_encrypted_channels =
      apply_bool (getenv (codes "SIMPLE_NTPD_ENABLE_ENCRYPTED_CHANNELS"))
        c.enable_encrypted_channels;
  enable_certificate_validation =
      apply_bool (getenv (codes "SIMPLE_NTPD_ENABLE_CERT_VALIDATION"))
        c.enable_certificate_validation;
  enable_certificate_authentication =
      apply_bool (getenv (codes "SIMPLE_NTPD_ENABLE_CERT_AUTH"))
        c.enable_certificate_authentication;
  tls_cert_file = apply_string (getenv (codes "SIMPLE_NTPD_TLS_CERT_FILE")) c.tls_cert_file;
  tls_key_file = apply_string (getenv (codes "SIMPLE_NTPD_TLS_KEY_FILE")) c.tls_key_file;
  tls_ca_file = apply_string (getenv (codes "SIMPLE_NTPD_TLS_CA_FILE")) c.tls_ca_file;
  enable_leap_second_handling =
      apply_bool (getenv (codes "SIMPLE_NTPD_ENABLE_LEAP_SECOND_HANDLING"))
        c.enable_leap_second_handling;
  leap_second_file =
      apply_string (getenv (codes "SIMPLE_NTPD_LEAP_SECOND_FILE")) c.leap_second_file;
  enable_automatic_failover =
      apply_bool (getenv (codes "SIMPLE_NTPD_ENABLE_AUTO_FAILOVER")) c.enable_automatic_failover;
  enable_self_healing =
      apply_bool (getenv (codes "SIMPLE_NTPD_ENABLE_SELF_HEALING")) c.enable_self_healing;
  enable_graceful_degradation =
      apply_bool (getenv (codes "SIMPLE_NTPD_ENABLE_GRACEFUL_DEGRADATION"))
        c.enable_graceful_degradation;
  degradation_mode =
      apply_enum degradation_number (getenv (codes "SIMPLE_NTPD_DEGRADATION_MODE"))
        c.degradation_mode;
  enable_state_persistence =
      apply_bool (getenv (codes "SIMPLE_NTPD_ENABLE_STATE_PERSISTENCE")) c.enable_state_persistence;
  state_file = apply_string (getenv (codes "SIMPLE_NTPD_STATE_FILE")) c.state_file;
  backup_config_file =
      apply_string (getenv (codes "SIMPLE_NTPD_BACKUP_CONFIG_FILE")) c.backup_config_file;
  service_restart_limit =
      apply_unsigned (2 ^ 32) (getenv (codes "SIMPLE_NTPD_SERVICE_RESTART_LIMIT"))
        c.service_restart_limit;
  upstream_selection_algorithm =
      apply_enum selection_number (getenv (codes "SIMPLE_NTPD_UPSTREAM_SELECTION_ALGORITHM"))
        c.upstream_selection_algorithm;
  enable_upstream_load_balancing =
      apply_bool (getenv (codes "SIMPLE_NTPD_ENABLE_UPSTREAM_LOAD_BALANCING"))
        c.enable_upstream_load_balancing;
  enable_upstream_failover =
      apply_bool (getenv (codes "SIMPLE_NTPD_ENABLE_UPSTREAM_FAILOVER")) c.enable_upstream_failover;
  enable_dynamic_stratum_adjustment =
      apply_bool (getenv (codes "SIMPLE_NTPD_ENABLE_DYNAMIC_STRATUM"))
        c.enable_dynamic_stratum_adjustment;
  enable_reference_clock_support =
      apply_bool (getenv (codes "SIMPLE_NTPD_ENABLE_REFERENCE_CLOCK_SUPPORT"))
        c.enable_reference_clock_support;
  reference_clock_source =
      apply_string (getenv (codes "SIMPLE_NTPD_REFERENCE_CLOCK_SOURCE")) c.reference_clock_source;
}

-- Every argument of the form `--key=value`, then the environment.
unfoldable pub load_from_command_line :
    (Bytes → Option Bytes) → List Bytes → NtpConfig → NtpConfig × Bool
load_from_command_line getenv args c =
    (apply_environment_overrides getenv (parse_arguments args c), true)
