-- ===== src/Server/Reports/Metrics/Scrape.antt =====
-- What a reader of the metrics (src/simple-ntpd/core/server.cpp) finds.
use simple_ntpd.Common.{
  ℕ, ◌^◌, ◌<◌, ◌≡◌, refl, ap, ◌∙◌, arith, Option, none, some, List, [], ◌++◌, All, if◌then◌else◌,
  ◌==◌,
}
use simple_ntpd.Common.Text.{Bytes, codes, stoull, split_on}
use simple_ntpd.Common.Text.Laws.{Avoids}
use simple_ntpd.Common.Text.Lines.{
  unlines, unlines-append, split_on-unlines_append, find_behind, behind_prefix, lacks, lacks-Avoids,
  number_line-Avoids,
}
use simple_ntpd.Common.Text.Digits.{stoull-to_string}
use simple_ntpd.Server.{NtpServer, NtpServerStats, u64_max}
use simple_ntpd.Server.Reports.{Measures}
use simple_ntpd.Server.Reports.Metrics.{
  help, kind, counter_lines, gauge_lines, synced_lines, usage_lines, export_prometheus_metrics,
}

-- The number behind `name ` in the first line that begins so.
unfoldable pub metric_in_lines : Bytes → List Bytes → Option ℕ
metric_in_lines name ls = elim (find_behind (name ++ codes " ") ls) [
  | none ↦ none
  | some rest ↦ stoull rest
]

unfoldable pub read_metric : Bytes → Bytes → Option ℕ
read_metric name text = metric_in_lines name (split_on 10 text)

-- The least time of a request, or 0 as long as there was none.
abbrev pub least_time : NtpServerStats → ℕ
least_time stats =
    if stats.min_request_processing_time_us == u64_max
    then 0
    else stats.min_request_processing_time_us

counter_lines-Avoids :
    (m : Measures) (stats : NtpServerStats) → All (Avoids 10) (counter_lines m stats)
unfolding counter_lines lacks
counter_lines-Avoids m stats = (
  lacks-Avoids 10 (help (codes "simple_ntpd_requests_total") (codes "Total NTP requests processed"))
      refl,
  (
    lacks-Avoids 10 (kind (codes "simple_ntpd_requests_total") (codes "counter")) refl,
    (
      number_line-Avoids (codes "simple_ntpd_requests_total ") stats.total_requests [] refl refl,
      (
        lacks-Avoids 10 (help (codes "simple_ntpd_errors_total") (codes "Total NTP errors")) refl,
        (
          lacks-Avoids 10 (kind (codes "simple_ntpd_errors_total") (codes "counter")) refl,
          (
            number_line-Avoids (codes "simple_ntpd_errors_total ") stats.total_errors [] refl refl,
            (
              lacks-Avoids 10
                  (help (codes "simple_ntpd_bytes_total") (codes "Total bytes transferred")) refl,
              (
                lacks-Avoids 10 (kind (codes "simple_ntpd_bytes_total") (codes "counter")) refl,
                (
                  number_line-Avoids (codes "simple_ntpd_bytes_total ")
                      stats.total_bytes_transferred [] refl refl,
                  (
                    lacks-Avoids 10
                        (help (codes "simple_ntpd_request_proc_time_us")
                          (codes "Request processing time (us)"))
                        refl,
                    (
                      lacks-Avoids 10
                          (kind (codes "simple_ntpd_request_proc_time_us") (codes "summary")) refl,
                      (
                        number_line-Avoids (codes "simple_ntpd_request_proc_time_us_count ")
                            stats.processed_request_count [] refl refl,
                        (
                          number_line-Avoids (codes "simple_ntpd_request_proc_time_us_sum ")
                              stats.total_request_processing_time_us [] refl refl,
                          (
                            number_line-Avoids (codes "simple_ntpd_request_proc_time_us_avg ")
                                m.avg_us [] refl refl,
                            (
                              number_line-Avoids (codes "simple_ntpd_request_proc_time_us_max ")
                                  stats.max_request_processing_time_us [] refl refl,
                              (
                                number_line-Avoids (codes "simple_ntpd_request_proc_time_us_min ")
                                    (least_time stats) [] refl refl,
                                tt,
                              ),
                            ),
                          ),
                        ),
                      ),
                    ),
                  ),
                ),
              ),
            ),
          ),
        ),
      ),
    ),
  ),
)

-- The lines of the metrics begin with those of the counters.
metrics_lines :
    (m : Measures) (s : NtpServer)
    → (rest : List Bytes) × (split_on 10 (export_prometheus_metrics m s)
        ≡ counter_lines m s.stats ++ rest)
unfolding export_prometheus_metrics
metrics_lines m s = (
  split_on 10 (unlines behind),
  ap (split_on 10) (unlines-append (counter_lines m s.stats) behind)
      ∙ split_on-unlines_append (counter_lines m s.stats) (unlines behind)
          (counter_lines-Avoids m s.stats),
)
  where
    behind : List Bytes
    behind = gauge_lines m ++ (synced_lines s.upstream_sync ++ usage_lines m.usage)

-- The counters fit their 64 bits.
abbrev pub AreCounters : NtpServerStats → Type 0
AreCounters stats =
    (stats.total_requests < 2 ^ 64)
    × (stats.total_errors < 2 ^ 64)
    × (stats.total_bytes_transferred < 2 ^ 64)
    × (stats.processed_request_count < 2 ^ 64)
    × (stats.total_request_processing_time_us < 2 ^ 64)
    × (stats.max_request_processing_time_us < 2 ^ 64)
    × (stats.min_request_processing_time_us < 2 ^ 64)

-- A reader of the metrics finds the seven 64-bit counters that are exported, those of requests,
-- errors and bytes and the count, sum, greatest and least of the processing times, each under its
-- name, if each is below 2 ^ 64; the least time is read as 0 as long as it is at its initial
-- value.
pub export_prometheus_metrics-read :
    (m : Measures) (s : NtpServer)
    → AreCounters s.stats
    → let metric = λ (name : Bytes). read_metric name (export_prometheus_metrics m s) in
      (metric (codes "simple_ntpd_requests_total") ≡ some s.stats.total_requests)
      × (metric (codes "simple_ntpd_errors_total") ≡ some s.stats.total_errors)
      × (metric (codes "simple_ntpd_bytes_total") ≡ some s.stats.total_bytes_transferred)
      × (metric (codes "simple_ntpd_request_proc_time_us_count")
          ≡ some s.stats.processed_request_count)
      × (metric (codes "simple_ntpd_request_proc_time_us_sum")
          ≡ some s.stats.total_request_processing_time_us)
      × (metric (codes "simple_ntpd_request_proc_time_us_max")
          ≡ some s.stats.max_request_processing_time_us)
      × (metric (codes "simple_ntpd_request_proc_time_us_min") ≡ some (least_time s.stats))
unfolding read_metric metric_in_lines find_behind behind_prefix counter_lines
export_prometheus_metrics-read m s (requests, errors, bytes, count, sum, max, min) =
    let (rest, lines) = metrics_lines m s in
    (
      ap (metric_in_lines (codes "simple_ntpd_requests_total")) lines
          ∙ stoull-to_string s.stats.total_requests [] requests tt,
      ap (metric_in_lines (codes "simple_ntpd_errors_total")) lines
          ∙ stoull-to_string s.stats.total_errors [] errors tt,
      ap (metric_in_lines (codes "simple_ntpd_bytes_total")) lines
          ∙ stoull-to_string s.stats.total_bytes_transferred [] bytes tt,
      ap (metric_in_lines (codes "simple_ntpd_request_proc_time_us_count")) lines
          ∙ stoull-to_string s.stats.processed_request_count [] count tt,
      ap (metric_in_lines (codes "simple_ntpd_request_proc_time_us_sum")) lines
          ∙ stoull-to_string s.stats.total_request_processing_time_us [] sum tt,
      ap (metric_in_lines (codes "simple_ntpd_request_proc_time_us_max")) lines
          ∙ stoull-to_string s.stats.max_request_processing_time_us [] max tt,
      ap (metric_in_lines (codes "simple_ntpd_request_proc_time_us_min")) lines
          ∙ stoull-to_string (least_time s.stats) [] (ground arith) tt,
    )
