-- ===== src/Server/State/Runs.antt =====
-- The state file and the backup (src/simple-ntpd/core/server.cpp): the theorems at a server that keeps both.
use simple_ntpd.Common.{◌≡◌, ◌≢◌, refl, arith, true, none, some, [], ◌++◌, if◌then◌else◌}
use simple_ntpd.Common.Text.{Bytes, codes, equal}
use simple_ntpd.Config.{NtpConfig, set_defaults}
use simple_ntpd.Logger.Files.{FileSystem, put, exists}
use simple_ntpd.Server.{NtpServer, new_server, no_stats}
use simple_ntpd.Server.State.{persist_state, load_state, backup_config}
use simple_ntpd.Server.State.Persisted.{Tells, persist_state-Tells}

abbrev keeping : NtpConfig
keeping = record set_defaults {
  enable_state_persistence = true;
  state_file = codes "s";
  backup_config_file = codes "b";
  last_config_file = codes "c";
}

abbrev counted : NtpServer
counted = record (new_server keeping) {
  stats = record no_stats { total_requests = 12; total_errors = 3; total_connections = 4 };
}

-- A configuration file and an old backup.
abbrev disk : FileSystem
disk = λ p. if equal p (codes "c") then some (codes "listen_port=123") else some (codes "old")

persist_state-Tells_example :
    let after = persist_state true counted disk in
    (text : Bytes) × (after (codes "s") ≡ some text)
    × Tells text counted.stats
    × (load_state counted after ≡ some (codes "Loaded persisted state from " ++ codes "s"))
    × ((p : Bytes) → p ≢ codes "s" → after p ≡ disk p)
persist_state-Tells_example =
    persist_state-Tells counted disk refl (omega arith, omega arith, omega arith)

-- Without the configuration file the old backup is lost.
abbrev bare_disk : FileSystem
bare_disk = λ p. if equal p (codes "b") then some (codes "old") else none

backup_lost : backup_config true counted bare_disk (codes "b") ≡ some []
unfolding backup_config exists equal put
backup_lost = refl
