-- ===== src/Config/Environment/Twice.antt =====
-- Reading the environment again (src/simple-ntpd/config/config.cpp).
use simple_ntpd.Common.{ℕ, ◌%◌, ◌^◌, ◌≡◌, refl, Bool, Option, none, some}
use simple_ntpd.Common.Int.{ℤ, to_unsigned, to_signed}
use simple_ntpd.Common.Text.{Bytes, codes, stoi, stoull, stoll}
use simple_ntpd.Config.{NtpConfig}
use simple_ntpd.Config.Settings.{level_of}
use simple_ntpd.Config.Environment.{
  apply_number, apply_string, apply_bool, apply_unsigned, apply_int, apply_duration, apply_enum,
  algorithm_number, degradation_number, selection_number, apply_environment_overrides,
}

string_twice :
    (v : Option Bytes) (old : Bytes) → apply_string v (apply_string v old) ≡ apply_string v old
string_twice none old = refl
string_twice (some v) old = refl

bool_twice : (v : Option Bytes) (old : Bool) → apply_bool v (apply_bool v old) ≡ apply_bool v old
bool_twice none old = refl
bool_twice (some v) old = refl

number_twice {ℓ κ} :
    {N : Type ℓ} {A : Type κ} (read : Bytes → Option N) (cast : N → A) (v : Option Bytes) (old : A)
    → apply_number read cast v (apply_number read cast v old) ≡ apply_number read cast v old
number_twice read cast none old = refl
number_twice {N = N} {A = A} read cast (some v) old = read_twice (read v)
  where
    keep : A → Option N → A
    keep other none = other
    keep other (some n) = cast n

    read_twice : (r : Option N) → keep (keep old r) r ≡ keep old r
    read_twice none = refl
    read_twice (some n) = refl

unsigned_twice :
    (values : ℕ) (v : Option Bytes) (old : ℕ)
    → apply_unsigned values v (apply_unsigned values v old) ≡ apply_unsigned values v old
unsigned_twice values = number_twice stoull (λ n. n % values)

int_twice : (v : Option Bytes) (old : ℤ) → apply_int v (apply_int v old) ≡ apply_int v old
int_twice = number_twice stoll (λ n. to_signed (2 ^ 32) (to_unsigned (2 ^ 32) n))

duration_twice :
    (v : Option Bytes) (old : ℤ) → apply_duration v (apply_duration v old) ≡ apply_duration v old
duration_twice = number_twice stoll (λ n. n)

enum_twice {ℓ} :
    {E : Type ℓ} (cast : ℤ → E) (v : Option Bytes) (old : E)
    → apply_enum cast v (apply_enum cast v old) ≡ apply_enum cast v old
enum_twice cast = number_twice stoi cast

-- Applying the environment a second time changes nothing.
overrides-twice :
    (getenv : Bytes → Option Bytes) (c : NtpConfig)
    → apply_environment_overrides getenv (apply_environment_overrides getenv c)
      ≡ apply_environment_overrides getenv c
unfolding apply_environment_overrides
overrides-twice getenv c = λ j. record c {
  listen_address = string_twice (getenv (codes "SIMPLE_NTPD_LISTEN_ADDRESS")) c.listen_address j;
  listen_port = unsigned_twice (2 ^ 16) (getenv (codes "SIMPLE_NTPD_LISTEN_PORT")) c.listen_port j;
  max_connections = int_twice (getenv (codes "SIMPLE_NTPD_MAX_CONNECTIONS")) c.max_connections j;
  worker_threads =
      unsigned_twice (2 ^ 64) (getenv (codes "SIMPLE_NTPD_WORKER_THREADS")) c.worker_threads j;
  max_packet_size =
      unsigned_twice (2 ^ 64) (getenv (codes "SIMPLE_NTPD_MAX_PACKET_SIZE")) c.max_packet_size j;
  reference_id = string_twice (getenv (codes "SIMPLE_NTPD_REFERENCE_ID")) c.reference_id j;
  reference_clock = string_twice (getenv (codes "SIMPLE_NTPD_REFERENCE_CLOCK")) c.reference_clock j;
  enable_statistics =
      bool_twice (getenv (codes "SIMPLE_NTPD_ENABLE_STATISTICS")) c.enable_statistics j;
  stats_interval =
      duration_twice (getenv (codes "SIMPLE_NTPD_STATS_INTERVAL_SEC")) c.stats_interval j;
  sync_interval = duration_twice (getenv (codes "SIMPLE_NTPD_SYNC_INTERVAL_SEC")) c.sync_interval j;
  timeout = duration_twice (getenv (codes "SIMPLE_NTPD_TIMEOUT_MS")) c.timeout j;
  log_file = string_twice (getenv (codes "SIMPLE_NTPD_LOG_FILE")) c.log_file j;
  log_level = enum_twice level_of (getenv (codes "SIMPLE_NTPD_LOG_LEVEL")) c.log_level j;
  log_json = bool_twice (getenv (codes "SIMPLE_NTPD_LOG_JSON")) c.log_json j;
  log_max_size_bytes =
      unsigned_twice (2 ^ 64) (getenv (codes "SIMPLE_NTPD_LOG_MAX_SIZE_BYTES")) c.log_max_size_bytes
        j;
  log_max_files =
      unsigned_twice (2 ^ 32) (getenv (codes "SIMPLE_NTPD_LOG_MAX_FILES")) c.log_max_files j;
  enable_syslog = bool_twice (getenv (codes "SIMPLE_NTPD_ENABLE_SYSLOG")) c.enable_syslog j;
  enable_console_logging =
      bool_twice (getenv (codes "SIMPLE_NTPD_ENABLE_CONSOLE_LOGGING")) c.enable_console_logging j;
  enable_authentication =
      bool_twice (getenv (codes "SIMPLE_NTPD_ENABLE_AUTHENTICATION")) c.enable_authentication j;
  authentication_key = string_twice (getenv (codes "SIMPLE_NTPD_AUTH_KEY")) c.authentication_key j;
  authentication_algorithm =
      enum_twice algorithm_number (getenv (codes "SIMPLE_NTPD_AUTH_ALGORITHM"))
        c.authentication_algorithm j;
  enable_acl = bool_twice (getenv (codes "SIMPLE_NTPD_ENABLE_ACL")) c.enable_acl j;
  restrict_queries =
      bool_twice (getenv (codes "SIMPLE_NTPD_RESTRICT_QUERIES")) c.restrict_queries j;
  enable_rate_limiting =
      bool_twice (getenv (codes "SIMPLE_NTPD_ENABLE_RATE_LIMITING")) c.enable_rate_limiting j;
  connection_rate_limit_per_minute =
      unsigned_twice (2 ^ 32) (getenv (codes "SIMPLE_NTPD_CONN_RATE_LIMIT_PER_MIN"))
        c.connection_rate_limit_per_minute j;
  request_rate_limit_per_minute =
      unsigned_twice (2 ^ 32) (getenv (codes "SIMPLE_NTPD_REQ_RATE_LIMIT_PER_MIN"))
        c.request_rate_limit_per_minute j;
  enable_ddos_protection =
      bool_twice (getenv (codes "SIMPLE_NTPD_ENABLE_DDOS_PROTECTION")) c.enable_ddos_protection j;
  ddos_anomaly_threshold_per_second =
      unsigned_twice (2 ^ 32) (getenv (codes "SIMPLE_NTPD_DDOS_THRESHOLD_PER_SEC"))
        c.ddos_anomaly_threshold_per_second j;
  enable_tls = bool_twice (getenv (codes "SIMPLE_NTPD_ENABLE_TLS")) c.enable_tls j;
  enable_encrypted_channels =
      bool_twice (getenv (codes "SIMPLE_NTPD_ENABLE_ENCRYPTED_CHANNELS"))
        c.enable_encrypted_channels j;
  enable_certificate_validation =
      bool_twice (getenv (codes "SIMPLE_NTPD_ENABLE_CERT_VALIDATION"))
        c.enable_certificate_validation j;
  enable_certificate_authentication =
      bool_twice (getenv (codes "SIMPLE_NTPD_ENABLE_CERT_AUTH")) c.enable_certificate_authentication
        j;
  tls_cert_file = string_twice (getenv (codes "SIMPLE_NTPD_TLS_CERT_FILE")) c.tls_cert_file j;
  tls_key_file = string_twice (getenv (codes "SIMPLE_NTPD_TLS_KEY_FILE")) c.tls_key_file j;
  tls_ca_file = string_twice (getenv (codes "SIMPLE_NTPD_TLS_CA_FILE")) c.tls_ca_file j;
  enable_leap_second_handling =
      bool_twice (getenv (codes "SIMPLE_NTPD_ENABLE_LEAP_SECOND_HANDLING"))
        c.enable_leap_second_handling j;
  leap_second_file =
      string_twice (getenv (codes "SIMPLE_NTPD_LEAP_SECOND_FILE")) c.leap_second_file j;
  enable_automatic_failover =
      bool_twice (getenv (codes "SIMPLE_NTPD_ENABLE_AUTO_FAILOVER")) c.enable_automatic_failover j;
  enable_self_healing =
      bool_twice (getenv (codes "SIMPLE_NTPD_ENABLE_SELF_HEALING")) c.enable_self_healing j;
  enable_graceful_degradation =
      bool_twice (getenv (codes "SIMPLE_NTPD_ENABLE_GRACEFUL_DEGRADATION"))
        c.enable_graceful_degradation j;
  degradation_mode =
      enum_twice degradation_number (getenv (codes "SIMPLE_NTPD_DEGRADATION_MODE"))
        c.degradation_mode j;
  enable_state_persistence =
      bool_twice (getenv (codes "SIMPLE_NTPD_ENABLE_STATE_PERSISTENCE")) c.enable_state_persistence
        j;
  state_file = string_twice (getenv (codes "SIMPLE_NTPD_STATE_FILE")) c.state_file j;
  backup_config_file =
      string_twice (getenv (codes "SIMPLE_NTPD_BACKUP_CONFIG_FILE")) c.backup_config_file j;
  service_restart_limit =
      unsigned_twice (2 ^ 32) (getenv (codes "SIMPLE_NTPD_SERVICE_RESTART_LIMIT"))
        c.service_restart_limit j;
  upstream_selection_algorithm =
      enum_twice selection_number (getenv (codes "SIMPLE_NTPD_UPSTREAM_SELECTION_ALGORITHM"))
        c.upstream_selection_algorithm j;
  enable_upstream_load_balancing =
      bool_twice (getenv (codes "SIMPLE_NTPD_ENABLE_UPSTREAM_LOAD_BALANCING"))
        c.enable_upstream_load_balancing j;
  enable_upstream_failover =
      bool_twice (getenv (codes "SIMPLE_NTPD_ENABLE_UPSTREAM_FAILOVER")) c.enable_upstream_failover
        j;
  enable_dynamic_stratum_adjustment =
      bool_twice (getenv (codes "SIMPLE_NTPD_ENABLE_DYNAMIC_STRATUM"))
        c.enable_dynamic_stratum_adjustment j;
  enable_reference_clock_support =
      bool_twice (getenv (codes "SIMPLE_NTPD_ENABLE_REFERENCE_CLOCK_SUPPORT"))
        c.enable_reference_clock_support j;
  reference_clock_source =
      string_twice (getenv (codes "SIMPLE_NTPD_REFERENCE_CLOCK_SOURCE")) c.reference_clock_source j;
}
