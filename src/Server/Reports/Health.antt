-- ===== src/Server/Reports/Health.antt =====
-- `runHealthChecks` (src/simple-ntpd/core/server.cpp); `leap_exists` is what `fs::exists` answers.
pub mod Verdict
use simple_ntpd.Common.{
  ℕ, ◌/◌, Bool, true, false, not, ◌&&◌, ◌||◌, Option, none, some, List, [], ◌∷◌, ◌++◌,
  if◌then◌else◌, is_empty, ltb,
}
use simple_ntpd.Common.Text.{Bytes, codes}
use simple_ntpd.Common.Text.Lines.{unlines}
use simple_ntpd.Upstream.{SyncState}
use simple_ntpd.Server.{NtpServer, NtpServerStats}
use simple_ntpd.Server.Reports.{number_line, truth}

abbrev pub is_bound : Option ℕ → Bool
is_bound none = false
is_bound (some fd) = true

abbrev pub is_synced : Option SyncState → Bool
is_synced none = false
is_synced (some sync) = sync.synced

-- Whether upstreams are configured, and whether one is synchronised with.
unfoldable pub upstream_lines : Bool → Bool → List Bytes
upstream_lines false synced = []
upstream_lines true true = codes "upstream_synced: true" ∷ []
upstream_lines true false =
    codes "upstream_synced: false"
    ∷ codes "warning: upstream time synchronization not established"
    ∷ []

-- Whether leap seconds are handled, and whether their file is there.
unfoldable pub leap_lines : Bool → Bool → List Bytes
leap_lines false present = []
leap_lines true true = codes "leap_second_file_present: true" ∷ []
leap_lines true false =
    codes "leap_second_file_present: false"
    ∷ codes "warning: leap second handling enabled but leap second file missing"
    ∷ []

unfoldable pub error_lines : Bool → List Bytes
error_lines high = if high then codes "warning: high error ratio detected" ∷ [] else []

abbrev pub has_high_errors : NtpServerStats → Bool
has_high_errors stats =
    ltb 0 stats.total_requests && ltb (stats.total_requests / 2) stats.total_errors

unfoldable pub verdict_line : Bool → Bytes
verdict_line healthy =
    if healthy then codes "overall_status: healthy" else codes "overall_status: degraded"

abbrev pub state_report : NtpServer → List Bytes
state_report s =
    codes "Health Check Report"
    ∷ (codes "running: " ++ truth s.running)
    ∷ (codes "socket_bound: " ++ truth (is_bound s.server_socket))
    ∷ number_line (codes "active_connections: ") s.stats.active_connections
    ∷ number_line (codes "total_errors: ") s.stats.total_errors
    ∷ (codes "config_loaded: " ++ truth (not (is_empty s.config.last_config_file)))
    ∷ []

-- The variable `healthy` behind its assignments, which go from top to bottom.
unfoldable pub is_healthy : (Bytes → Bool) → NtpServer → Bool
is_healthy leap_exists s =
    let configured = not (is_empty s.config.upstream_servers) in
    let leap = s.config.enable_leap_second_handling in
    let up = if not s.running then false else true in
    let upstream_ok = if configured && not (is_synced s.upstream_sync) then false else up in
    let leap_ok =
      if leap && not (leap_exists s.config.leap_second_file) then false else upstream_ok in
    if has_high_errors s.stats then false else leap_ok

unfoldable pub run_health_checks : (Bytes → Bool) → NtpServer → Bytes
run_health_checks leap_exists s = unlines (
    state_report s
    ++ (upstream_lines (not (is_empty s.config.upstream_servers)) (is_synced s.upstream_sync)
        ++ (leap_lines s.config.enable_leap_second_handling (leap_exists s.config.leap_second_file)
            ++ (error_lines (has_high_errors s.stats)
                ++ verdict_line (is_healthy leap_exists s) ∷ []))))
