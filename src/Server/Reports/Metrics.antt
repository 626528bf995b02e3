-- ===== src/Server/Reports/Metrics.antt =====
-- `exportPrometheusMetrics` (src/simple-ntpd/core/server.cpp).
pub mod Scrape
use simple_ntpd.Common.{ℕ, Bool, Option, none, some, List, [], ◌∷◌, ◌++◌, if◌then◌else◌, ◌==◌}
use simple_ntpd.Common.Int.{ℤ}
use simple_ntpd.Common.Text.{Bytes, codes}
use simple_ntpd.Common.Text.Lines.{unlines}
use simple_ntpd.Logger.Message.{line_number}
use simple_ntpd.Upstream.{SyncState}
use simple_ntpd.Server.{NtpServer, NtpServerStats, u64_max}
use simple_ntpd.Server.Reports.{Measures, number_line}

-- The comments of a metric.
abbrev pub help : Bytes → Bytes → Bytes
help name text = codes "# HELP " ++ (name ++ (codes " " ++ text))

abbrev pub kind : Bytes → Bytes → Bytes
kind name text = codes "# TYPE " ++ (name ++ (codes " " ++ text))

counter_lines : Measures → NtpServerStats → List Bytes
counter_lines m stats =
    help (codes "simple_ntpd_requests_total") (codes "Total NTP requests processed")
    ∷ kind (codes "simple_ntpd_requests_total") (codes "counter")
    ∷ number_line (codes "simple_ntpd_requests_total ") stats.total_requests
    ∷ help (codes "simple_ntpd_errors_total") (codes "Total NTP errors")
    ∷ kind (codes "simple_ntpd_errors_total") (codes "counter")
    ∷ number_line (codes "simple_ntpd_errors_total ") stats.total_errors
    ∷ help (codes "simple_ntpd_bytes_total") (codes "Total bytes transferred")
    ∷ kind (codes "simple_ntpd_bytes_total") (codes "counter")
    ∷ number_line (codes "simple_ntpd_bytes_total ") stats.total_bytes_transferred
    ∷ help (codes "simple_ntpd_request_proc_time_us") (codes "Request processing time (us)")
    ∷ kind (codes "simple_ntpd_request_proc_time_us") (codes "summary")
    ∷ number_line (codes "simple_ntpd_request_proc_time_us_count ") stats.processed_request_count
    ∷ number_line (codes "simple_ntpd_request_proc_time_us_sum ")
        stats.total_request_processing_time_us
    ∷ number_line (codes "simple_ntpd_request_proc_time_us_avg ") m.avg_us
    ∷ number_line (codes "simple_ntpd_request_proc_time_us_max ")
        stats.max_request_processing_time_us
    ∷ number_line (codes "simple_ntpd_request_proc_time_us_min ") (
        if stats.min_request_processing_time_us == u64_max
        then 0
        else stats.min_request_processing_time_us)
    ∷ []

gauge_lines : Measures → List Bytes
gauge_lines m =
    help (codes "simple_ntpd_uptime_seconds") (codes "Server uptime in seconds")
    ∷ kind (codes "simple_ntpd_uptime_seconds") (codes "gauge")
    ∷ (codes "simple_ntpd_uptime_seconds " ++ line_number m.uptime_seconds)
    ∷ []

synced_lines : Option SyncState → List Bytes
synced_lines none = []
synced_lines (some sync) =
    help (codes "simple_ntpd_upstream_synced") (codes "Whether upstream sync succeeded")
    ∷ kind (codes "simple_ntpd_upstream_synced") (codes "gauge")
    ∷ number_line (codes "simple_ntpd_upstream_synced ") (if sync.synced then 1 else 0)
    ∷ help (codes "simple_ntpd_clock_offset_us") (codes "Estimated clock offset from upstream")
    ∷ kind (codes "simple_ntpd_clock_offset_us") (codes "gauge")
    ∷ (codes "simple_ntpd_clock_offset_us " ++ line_number sync.clock_offset_us)
    ∷ []

usage_lines : Option (ℤ × Bytes × Bytes) → List Bytes
usage_lines none = []
usage_lines (some (rss, user, system)) =
    help (codes "simple_ntpd_process_max_rss_bytes") (codes "Peak RSS in bytes")
    ∷ kind (codes "simple_ntpd_process_max_rss_bytes") (codes "gauge")
    ∷ (codes "simple_ntpd_process_max_rss_bytes " ++ line_number rss)
    ∷ help (codes "simple_ntpd_process_user_cpu_seconds") (codes "Total user CPU time")
    ∷ kind (codes "simple_ntpd_process_user_cpu_seconds") (codes "counter")
    ∷ (codes "simple_ntpd_process_user_cpu_seconds " ++ user)
    ∷ help (codes "simple_ntpd_process_system_cpu_seconds") (codes "Total system CPU time")
    ∷ kind (codes "simple_ntpd_process_system_cpu_seconds") (codes "counter")
    ∷ (codes "simple_ntpd_process_system_cpu_seconds " ++ system)
    ∷ []

unfoldable pub export_prometheus_metrics : Measures → NtpServer → Bytes
unfolding counter_lines gauge_lines synced_lines usage_lines
export_prometheus_metrics m s = unlines (
    counter_lines m s.stats
    ++ (gauge_lines m ++ (synced_lines s.upstream_sync ++ usage_lines m.usage)))
