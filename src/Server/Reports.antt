-- ===== src/Server/Reports.antt =====
-- The reports of the server (src/simple-ntpd/core/server.cpp): `listConnections` and `getStatus`,
-- and `statusSummary` of
-- src/simple-ntpd/core/upstream_sync.cpp. What a clock, `getrusage` and the arithmetic on `double`
-- yield is a `Measures`.
pub mod Metrics
pub mod Health
mod Runs
use simple_ntpd.Common.{
  ℕ, ◌/◌, ◌^◌, ◌-◌, Bool, true, false, not, ◌&&◌, ◌||◌, Option, none, some, List, [], ◌∷◌, ◌++◌,
  if◌then◌else◌, is_empty, ltb, ◌==◌, length,
}
use simple_ntpd.Common.Int.{ℤ}
use simple_ntpd.Common.Text.{Bytes, codes, to_string}
use simple_ntpd.Common.Text.Lines.{unlines}
use simple_ntpd.Connection.{NtpConnection}
use simple_ntpd.Logger.Message.{line_number}
use simple_ntpd.Upstream.{SyncState}
use simple_ntpd.Server.{NtpServer, NtpServerStats, u64_max}

pub record Measures : Type 0 where
  pub uptime_seconds : ℤ
  pub avg_us : ℕ  -- the average time of a request, cut to an integer; 0 without requests
  pub throughput : Bytes
  pub usage : Option (ℤ × Bytes × Bytes)  -- the resident bytes, and the two CPU times
  pub worker_threads : ℕ

-- A line with a number or another text behind its beginning.
abbrev pub number_line : Bytes → ℕ → Bytes
number_line before n = before ++ (to_string n ++ [])

abbrev pub truth : Bool → Bytes
truth b = if b then codes "true" else codes "false"

connection_line : Bytes × NtpConnection → Bytes
connection_line (ip, c) =
    codes "  "
    ++ (ip
        ++ (codes " packets_rx="
            ++ (to_string c.stats.packets_received
                ++ (codes " packets_tx="
                    ++ (to_string c.stats.packets_sent
                        ++ (codes " errors=" ++ to_string c.stats.errors))))))

connection_lines : List (Bytes × NtpConnection) → List Bytes
connection_lines [] = []
connection_lines (e ∷ rest) = connection_line e ∷ connection_lines rest

unfoldable pub list_connections : NtpServer → Bytes
unfolding connection_lines connection_line
list_connections s = unlines (
    codes "Active NTP Clients:"
    ∷ (if is_empty s.active_connections
        then codes "  (none)" ∷ []
        else connection_lines s.active_connections))

unfoldable pub summary_lines : SyncState → List Bytes
summary_lines sync =
    if not sync.synced
    then codes "  Upstream Sync: Not synced" ∷ []
    else codes "  Upstream Sync: Synced"
      ∷ (codes "  Synced Upstream: " ++ sync.synced_upstream)
      ∷ (codes "  Clock Offset (us): " ++ line_number sync.clock_offset_us)
      ∷ (codes "  Last RTT (us): " ++ line_number sync.last_delay_us)
      ∷ number_line (codes "  Upstream Stratum: ") sync.upstream_stratum
      ∷ []

unfoldable pub status_summary : SyncState → Bytes
unfolding summary_lines
status_summary sync = unlines (summary_lines sync)

abbrev sync_lines : Option SyncState → List Bytes
sync_lines none = []
sync_lines (some sync) = summary_lines sync

processing_lines : Measures → NtpServerStats → List Bytes
processing_lines m stats =
    if ltb 0 stats.processed_request_count
    then number_line (codes "  Avg Proc Time (us): ") m.avg_us
      ∷ number_line (codes "  Max Proc Time (us): ") stats.max_request_processing_time_us
      ∷ number_line (codes "  Min Proc Time (us): ") stats.min_request_processing_time_us
      ∷ (codes "  Throughput (req/s): " ++ m.throughput)
      ∷ []
    else []

unfoldable pub status_lines : Measures → NtpServer → List Bytes
unfolding processing_lines summary_lines
status_lines m s =
    if not s.running
    then codes "NTP Server Status:" ∷ codes "  Status: Stopped" ∷ []
    else codes "NTP Server Status:"
      ∷ codes "  Status: Running"
      ∷ (codes "  Uptime: " ++ (line_number m.uptime_seconds ++ codes " seconds"))
      ∷ (codes "  Listen Address: " ++ (s.server_address ++ (codes ":" ++ to_string s.server_port)))
      ∷ number_line (codes "  Worker Threads: ") m.worker_threads
      ∷ number_line (codes "  Active Connections: ") s.stats.active_connections
      ∷ number_line (codes "  Total Requests: ") s.stats.total_requests
      ∷ number_line (codes "  Total Bytes: ") s.stats.total_bytes_transferred
      ∷ number_line (codes "  Total Errors: ") s.stats.total_errors
      ∷ (processing_lines m s.stats ++ sync_lines s.upstream_sync)

unfoldable pub get_status : Measures → NtpServer → Bytes
unfolding status_lines
get_status m s = unlines (status_lines m s)
