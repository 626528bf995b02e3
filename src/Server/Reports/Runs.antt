-- ===== src/Server/Reports/Runs.antt =====
-- The reports of the server (src/simple-ntpd/core/server.cpp): tests, and the theorems at a server that runs.
use simple_ntpd.Common.{◌≡◌, ◌↔◌, refl, arith, true, none, some, [], ◌∷◌}
use simple_ntpd.Common.Int.{pos}
use simple_ntpd.Common.Text.{Bytes, codes, split_on}
use simple_ntpd.Common.Text.Lines.{unlines}
use simple_ntpd.Config.{set_defaults}
use simple_ntpd.Server.{NtpServer, new_server, no_stats}
use simple_ntpd.Server.Reports.{Measures, list_connections, get_status}
use simple_ntpd.Server.Reports.Metrics.{export_prometheus_metrics}
use simple_ntpd.Server.Reports.Metrics.Scrape.{read_metric, export_prometheus_metrics-read}
use simple_ntpd.Server.Reports.Health.{run_health_checks}
use simple_ntpd.Server.Reports.Health.Verdict.{last_of, IsHealthy, run_health_checks_iff}

abbrev serving : NtpServer
serving = record (new_server set_defaults) {
  running = true;
  server_socket = some 5;
  stats = record no_stats { total_requests = 9; total_errors = 4; total_bytes_transferred = 432 };
}

abbrev measured : Measures
measured = record {
  uptime_seconds = pos 60;
  avg_us = 0;
  throughput = codes "0.15";
  usage = none;
  worker_threads = 4;
}

export_prometheus_metrics-read_example :
    let metric = λ (name : Bytes). read_metric name (export_prometheus_metrics measured serving) in
    (metric (codes "simple_ntpd_requests_total") ≡ some 9)
    × (metric (codes "simple_ntpd_errors_total") ≡ some 4)
    × (metric (codes "simple_ntpd_bytes_total") ≡ some 432)
    × (metric (codes "simple_ntpd_request_proc_time_us_count") ≡ some 0)
    × (metric (codes "simple_ntpd_request_proc_time_us_sum") ≡ some 0)
    × (metric (codes "simple_ntpd_request_proc_time_us_max") ≡ some 0)
    × (metric (codes "simple_ntpd_request_proc_time_us_min") ≡ some 0)
export_prometheus_metrics-read_example =
    export_prometheus_metrics-read measured serving
      (omega arith, omega arith, omega arith, omega arith, omega arith, omega arith, omega arith)

run_health_checks_iff_example :
    (last_of (split_on 10 (run_health_checks (λ path. true) serving))
      ≡ some (codes "overall_status: healthy"))
    ↔ IsHealthy (λ path. true) serving
run_health_checks_iff_example = run_health_checks_iff (λ path. true) serving

no_connections :
    list_connections serving ≡ unlines (codes "Active NTP Clients:" ∷ codes "  (none)" ∷ [])
unfolding list_connections
no_connections = refl

stopped_status :
    get_status measured (new_server set_defaults)
    ≡ unlines (codes "NTP Server Status:" ∷ codes "  Status: Stopped" ∷ [])
unfolding get_status
stopped_status = refl
