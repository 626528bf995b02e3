-- ===== src/Program/Session/OneShot.antt =====
-- The one-shot commands (src/main/production.cpp), which run on a server of their own.
use simple_ntpd.Common.{◌≡◌, refl, ap, sym, ◌∙◌, arith, Bool, Option, some, subst}
use simple_ntpd.Common.Text.{Bytes, codes, equal}
use simple_ntpd.Config.{NtpConfig}
use simple_ntpd.Logger.{Logger}
use simple_ntpd.Server.{NtpServerStats, new_server, no_stats}
use simple_ntpd.Server.Lifecycle.{SocketAnswers, start, stop}
use simple_ntpd.Server.Lifecycle.Startup.{start-table}
use simple_ntpd.Server.Reports.{Measures}
use simple_ntpd.Server.Reports.Metrics.{export_prometheus_metrics}
use simple_ntpd.Server.Reports.Metrics.Scrape.{
  read_metric, AreCounters, export_prometheus_metrics-read,
}
use simple_ntpd.Program.Session.{one_shot}

no_stats-AreCounters : AreCounters no_stats
no_stats-AreCounters =
    (omega arith, omega arith, omega arith, omega arith, omega arith, omega arith, omega arith)

-- Whatever runs besides it, the metrics command on a server that it has just started, before the
-- first packet, prints 0 for the requests, the errors and the bytes, and leaves that server
-- stopped.
one_shot_metrics :
    (getenv files : Bytes → Option Bytes) (exists : Bytes → Bool) (m : Measures) (l : Logger)
    (answers : SocketAnswers) (c : NtpConfig)
    → let s = (start answers (new_server c)).0 in
      (text : Bytes) × (one_shot getenv files exists m (codes "metrics") l s ≡ some (text, stop s))
      × (read_metric (codes "simple_ntpd_requests_total") text ≡ some 0)
      × (read_metric (codes "simple_ntpd_errors_total") text ≡ some 0)
      × (read_metric (codes "simple_ntpd_bytes_total") text ≡ some 0)
unfolding one_shot equal
one_shot_metrics getenv files exists m l answers c =
    let s = (start answers (new_server c)).0 in
    let (same_table, same_stats) = start-table answers (new_server c) in
    let (requests, errors, bytes, _, _, _, _) =
      export_prometheus_metrics-read m s
        (subst AreCounters (sym same_stats) no_stats-AreCounters) in
    (
      export_prometheus_metrics m s,
      refl,
      requests ∙ ap (λ (k : NtpServerStats). some k.total_requests) same_stats,
      errors ∙ ap (λ (k : NtpServerStats). some k.total_errors) same_stats,
      bytes ∙ ap (λ (k : NtpServerStats). some k.total_bytes_transferred) same_stats,
    )
