-- ===== src/Program/Session.antt =====
-- `main` behind a start of the server, `signalHandler` and the handlers of `initializeSignalHandlers`
-- (src/main/production.cpp). A signal comes while `main` sleeps; what the other threads do to the
-- server meanwhile is left out.
pub mod Signals
pub mod OneShot
use simple_ntpd.Common.{
  ℕ, Bool, true, false, not, ◌&&◌, Option, none, some, List, [], ◌∷◌, ◌++◌, if◌then◌else◌,
}
use simple_ntpd.Common.Text.{Bytes, codes, equal, to_string}
use simple_ntpd.Common.Text.Lines.{unlines}
use simple_ntpd.Logger.{Logger}
use simple_ntpd.Server.{NtpServer, NtpServerStats}
use simple_ntpd.Server.Lifecycle.{stop}
use simple_ntpd.Server.Reload.{reload_config}
use simple_ntpd.Server.Reports.{Measures, number_line, list_connections, get_status}
use simple_ntpd.Server.Reports.Metrics.{export_prometheus_metrics}
use simple_ntpd.Server.Reports.Health.{run_health_checks}

-- `g_server`, `g_logger` and `g_shutdown_requested`
pub record Session : Type 0 where
  pub server : NtpServer
  pub logger : Logger
  pub shutdown_requested : Bool

-- SIGINT, SIGTERM or SIGQUIT, and SIGHUP with what the reload reads.
pub data Signal : Type 0 where
  terminate : Signal
  hang_up : (Bytes → Option Bytes) → (Bytes → Option Bytes) → Signal

-- The program goes on, or `std::exit` has ended it.
pub data Flow : Type 0 where
  alive : Session → Flow
  exited : ℕ → Flow

unfoldable pub signal_handler : Session → Flow
signal_handler s =
    if s.shutdown_requested
    then exited 1
    else alive (record s { server = stop s.server; shutdown_requested = true })

unfoldable pub on_hang_up : (Bytes → Option Bytes) → (Bytes → Option Bytes) → Session → Session
on_hang_up getenv files s =
    let (server', logger', ok) = reload_config getenv files s.logger s.server in
    record s { server = server'; logger = logger' }

unfoldable pub handle : Signal → Flow → Flow
handle e (exited code) = exited code
handle terminate (alive s) = signal_handler s
handle (hang_up getenv files) (alive s) = alive (on_hang_up getenv files s)

unfoldable pub handle_all : List Signal → Flow → Flow
handle_all [] f = f
handle_all (e ∷ es) f = handle_all es (handle e f)

abbrev pub keeps_serving : Session → Bool
keeps_serving s = s.server.running && not s.shutdown_requested

-- The loop of `main`, by the signals that come in each pause; `none` while it goes on.
unfoldable pub main_loop : List (List Signal) → Flow → Option Flow
main_loop pauses (exited code) = some (exited code)
main_loop [] (alive s) = if keeps_serving s then none else some (alive s)
main_loop (p ∷ ps) (alive s) =
    let rest = main_loop ps (handle_all p (alive s)) in
    if keeps_serving s then rest else some (alive s)

-- How the program ends: its exit code, and the server if `main` returns.
pub record Ending : Type 0 where
  pub code : ℕ
  pub server : Option NtpServer

unfoldable pub shut_down : Flow → Ending
shut_down (exited code) = record { code = code; server = none }
shut_down (alive s) = record { code = 0; server = some (stop s.server) }

unfoldable pub serve : List (List Signal) → Session → Option Ending
unfolding main_loop shut_down
serve pauses s = elim (main_loop pauses (alive s)) [ none ↦ none | some f ↦ some (shut_down f) ]

abbrev statistics_lines : NtpServerStats → List Bytes
statistics_lines stats =
    codes "NTP Server Statistics:"
    ∷ number_line (codes "  Total Connections: ") stats.total_connections
    ∷ number_line (codes "  Active Connections: ") stats.active_connections
    ∷ number_line (codes "  Total Requests: ") stats.total_requests
    ∷ number_line (codes "  Total Responses: ") stats.total_responses
    ∷ number_line (codes "  Total Errors: ") stats.total_errors
    ∷ number_line (codes "  Bytes Transferred: ") stats.total_bytes_transferred
    ∷ []

-- What a one-shot command prints, and the server that it leaves; `none` for `start`.
unfoldable pub one_shot :
    (Bytes → Option Bytes)
    → (Bytes → Option Bytes)
    → (Bytes → Bool)
    → Measures
    → Bytes
    → Logger
    → NtpServer
    → Option (Bytes × NtpServer)
one_shot getenv files exists m command l s =
    if equal command (codes "reload")
    then some ([], stop (reload_config getenv files l s).0)
    else if equal command (codes "metrics")
    then some (export_prometheus_metrics m s, stop s)
    else if equal command (codes "health")
    then some (run_health_checks exists s, stop s)
    else if equal command (codes "status")
    then some (get_status m s, stop s)
    else if equal command (codes "stats")
    then some (unlines (statistics_lines s.stats), stop s)
    else if equal command (codes "connections")
    then some (list_connections s, stop s)
    else none
