-- ===== src/Server/Reload/Outcome.antt =====
-- What a reload of the configuration (src/simple-ntpd/core/server.cpp) comes to.
use simple_ntpd.Common.{
  ◌≡◌, refl, ap, ◌∙◌, Bool, true, false, not, Option, if-true, if-false, is_empty, Bool-cases, ◌⊎◌,
  ◌≢◌, ◌≤◌, arith, [], ◌∷◌, inl, inr,
}
use simple_ntpd.Common.Text.{Bytes}
use simple_ntpd.Config.{NtpConfig}
use simple_ntpd.Config.File.{load_from_file}
use simple_ntpd.Config.Validate.{validate}
use simple_ntpd.Config.Validate.Laws.{IsUsable, validate_iff}
use simple_ntpd.Logger.{
  Logger, console, file, both, set_level, set_destination, set_structured_json, set_log_file,
  set_syslog, set_log_rotation,
}
use simple_ntpd.Common.Int.{pos}
use simple_ntpd.Server.{NtpServer}
use simple_ntpd.Server.Reload.{destination_of, apply_logging, adopt, reload_config}

-- The settings of the logger are those of the configuration; LOG_DAEMON is 24.
pub record LogsBy (c : NtpConfig) (l : Logger) : Type 0 where
  pub level : l.level ≡ c.log_level
  pub log_file : l.log_file ≡ c.log_file
  pub file_alone : c.enable_console_logging ≡ false → l.destination ≡ file
  pub console_alone : c.enable_console_logging ≡ true → c.log_file ≡ [] → l.destination ≡ console
  pub both_of_them : c.enable_console_logging ≡ true → c.log_file ≢ [] → l.destination ≡ both
  pub enable_syslog : l.enable_syslog ≡ c.enable_syslog
  pub syslog_facility : l.syslog_facility ≡ pos 24
  pub structured_json : l.structured_json ≡ c.log_json
  pub max_size : l.rotate_max_size_bytes ≡ c.log_max_size_bytes
  pub no_old_logs : c.log_max_files ≡ 0 → l.rotate_max_files ≡ 1
  pub old_logs : 1 ≤ c.log_max_files → l.rotate_max_files ≡ c.log_max_files

is_empty-nil : (b : Bytes) → is_empty b ≡ true → b ≡ []
is_empty-nil [] e = refl
is_empty-nil (b ∷ bs) e = absurd (cc)

apply_logging-LogsBy : (c : NtpConfig) (l : Logger) → LogsBy c (apply_logging c l)
unfolding apply_logging destination_of set_level set_log_file set_destination set_syslog
    set_structured_json set_log_rotation
apply_logging-LogsBy c l = record {
  level = refl;
  log_file = refl;
  file_alone = λ e. ground (arith, e);
  console_alone = λ e empty. rw (e, empty) refl;
  both_of_them = λ e named. ground (arith, e, named, is_empty-nil c.log_file);
  enable_syslog = refl;
  syslog_facility = refl;
  structured_json = refl;
  max_size = refl;
  no_old_logs = λ e. ground (arith, e);
  old_logs = λ e. ground (arith, e);
}

-- The file was read and the configuration that came out is usable.
abbrev pub IsLoaded : NtpConfig × Bool → Type 0
IsLoaded loaded = (loaded.1 ≡ true) × IsUsable loaded.0

-- The server goes on with the configuration c, and nothing but it and the logger has changed.
abbrev pub IsAdopted : NtpConfig → NtpServer → NtpServer × Logger × Bool → Type 0
IsAdopted c s r = (l : Logger) × (r ≡ (record s { config = c }, l, true)) × LogsBy c l

adopt_cases :
    (loaded : NtpConfig × Bool) (l : Logger) (s : NtpServer)
    → (¬ IsLoaded loaded × (adopt loaded l s ≡ (s, l, false)))
      ⊎ (IsLoaded loaded × IsAdopted loaded.0 s (adopt loaded l s))
unfolding adopt
adopt_cases (c, false) l s = inl ((λ (read, _). absurd (cc)), refl)
adopt_cases (c, true) l s = elim (Bool-cases (validate c)) [
  | inl valid ↦ inr (
    (refl, (validate_iff c).0 valid),
    (apply_logging c l, if-false (not (validate c)) _ _ (ap not valid), apply_logging-LogsBy c l),
  )
  | inr invalid ↦ inl (
    (λ (_, usable). let valid = (validate_iff c).1 usable in absurd (cc)),
    if-true (not (validate c)) _ _ (ap not invalid),
  )
]

module _ (getenv files : Bytes → Option Bytes) (l : Logger) (s : NtpServer) where
  -- What the recorded file makes of the present configuration.
  abbrev pub reread : NtpConfig × Bool
  reread =
      load_from_file getenv s.config.last_config_file (files s.config.last_config_file) s.config

  -- If a path of a configuration file is recorded, the file can be read, and the configuration
  -- that it makes of the present one is usable, then a reload succeeds, the server goes on with
  -- that configuration and is otherwise as it was, and each setting of the logger is that of the
  -- configuration: level, file, destination, syslog, JSON, size limit and number of old logs, at
  -- least 1. In every other case it fails and leaves the server and the logger as they were.
  pub reload_config_cases :
      (¬ ((s.config.last_config_file ≢ []) × IsLoaded reread)
        × (reload_config getenv files l s ≡ (s, l, false)))
      ⊎ (((s.config.last_config_file ≢ []) × IsLoaded reread)
          × IsAdopted reread.0 s (reload_config getenv files l s))
  unfolding reload_config
  reload_config_cases = elim (Bool-cases (is_empty s.config.last_config_file)) [
    | inl unknown ↦ inl (
      (λ (named, _). named (is_empty-nil _ unknown)),
      if-true (is_empty s.config.last_config_file) _ _ unknown,
    )
    | inr known ↦
        let same : reload_config getenv files l s ≡ adopt reread l s =
          if-false (is_empty s.config.last_config_file) _ _ known in
        elim (adopt_cases reread l s) [
          | inl (refused, kept) ↦ inl ((λ (_, loaded). refused loaded), same ∙ kept)
          | inr (loaded, (l', new, logs)) ↦
              inr (((λ e. named known e), loaded), (l', same ∙ new, logs))
        ]
  ]
    where
      named : {path : Bytes} → is_empty path ≡ false → path ≡ [] → ⊥
      named k e = absurd (cc (k, ap is_empty e))

pub reload-table :
    (getenv files : Bytes → Option Bytes) (l : Logger) (s : NtpServer)
    → ((reload_config getenv files l s).0.active_connections ≡ s.active_connections)
      × ((reload_config getenv files l s).0.stats ≡ s.stats)
reload-table getenv files l s = elim (reload_config_cases getenv files l s) [
  | inl (_, kept) ↦ (
    ap (λ (r : NtpServer × Logger × Bool). r.0.active_connections) kept,
    ap (λ (r : NtpServer × Logger × Bool). r.0.stats) kept,
  )
  | inr (_, (_, new, _)) ↦ (
    ap (λ (r : NtpServer × Logger × Bool). r.0.active_connections) new,
    ap (λ (r : NtpServer × Logger × Bool). r.0.stats) new,
  )
]
