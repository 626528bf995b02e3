-- ===== src/Program/Runs.antt =====
-- A run of the program.
use simple_ntpd.Common.{
  ℕ, ◌≤◌, ◌⊎◌, arith, false, ◌≡◌, ◌≢◌, ◌↔◌, refl, true, Option, none, some, [], ◌∷◌,
}
use simple_ntpd.Common.Text.{Bytes, codes, equal, stoi, read_number, skip_space, read_digits}
use simple_ntpd.Common.Int.{pos, to_unsigned}
use simple_ntpd.Config.{NtpConfig, set_defaults}
use simple_ntpd.Config.Settings.{is_named}
use simple_ntpd.Config.Validate.{validate, validate_detailed, run_checks}
use simple_ntpd.Logger.{new_logger}
use simple_ntpd.Server.{NtpServer, new_server}
use simple_ntpd.Server.Lifecycle.{SocketAnswers}
use simple_ntpd.Server.Reports.{Measures}
use simple_ntpd.Program.Session.{Session, Ending, terminate, hang_up, serve}
use simple_ntpd.Program.Session.Signals.{serve_ends, terminations}
use simple_ntpd.Program.{
  parse_option, take_value, parse_next, parse_all, choose_command, parse_command_line,
}
use simple_ntpd.Program.Exit.{main_ends}
use simple_ntpd.Program.Main.{Outside, main}

abbrev nothing_set : Bytes → Option Bytes
nothing_set name = none

abbrev taken : SocketAnswers
taken = record { opened = some 5; address_known = true; bound = true }

abbrev on_port : NtpConfig
on_port = record set_defaults { listen_port = 1123 }

accepted_runs :
    parse_command_line nothing_set nothing_set
      (codes "--port" ∷ codes "1123" ∷ codes "start" ∷ [])
      set_defaults
    ≡ some (codes "start", on_port)
unfolding parse_command_line parse_all parse_next parse_option take_value choose_command is_named
    equal stoi read_number skip_space read_digits to_unsigned set_defaults
accepted_runs = refl

valid_runs : validate on_port ≡ true
unfolding validate validate_detailed run_checks set_defaults
valid_runs = refl

-- A server that runs, without upstreams.
abbrev serving : Session
serving = record {
  server = record (new_server on_port) { running = true; server_socket = some 5 };
  logger = new_logger;
  shutdown_requested = false;
}

serve_ends_example :
    (◌≡◌ {A = ℕ} 1 1
      × (t : NtpServer) × (serve
            ([] ∷ (hang_up nothing_set nothing_set ∷ terminate ∷ []) ∷ [])
            serving
          ≡ some (record { code = 0; server = some t }))
      × (t.running ≡ false)
      × (t.server_socket ≡ none))
    ⊎ ((2 ≤ 1)
        × (serve ([] ∷ (hang_up nothing_set nothing_set ∷ terminate ∷ []) ∷ []) serving
            ≡ some (record { code = 1; server = none })))
unfolding terminations
serve_ends_example =
    serve_ends ([] ∷ []) (hang_up nothing_set nothing_set ∷ terminate ∷ []) [] serving refl refl
      (refl, tt) (omega arith)

abbrev unmeasured : Measures
unmeasured = record {
  uptime_seconds = pos 0;
  avg_us = 0;
  throughput = codes "0";
  usage = none;
  worker_threads = 4;
}

-- One pause without signals, and one with a single request to end.
abbrev one_signal : Outside
one_signal = record {
  answers = taken;
  exists = λ path. false;
  measures = unmeasured;
  pauses = [] ∷ (terminate ∷ []) ∷ [];
}

main_ends_example :
    (e : Ending) × (main nothing_set nothing_set one_signal
        (codes "--port" ∷ codes "1123" ∷ codes "start" ∷ [])
      ≡ some e)
    × ((e.code ≡ 0) ↔ (
        ((taken.opened ≢ none) × (taken.address_known ≡ true) × (taken.bound ≡ true))
        × ((codes "start" ≢ codes "start") ⊎ (◌≡◌ {A = ℕ} 1 1))))
unfolding terminations
main_ends_example =
    main_ends nothing_set nothing_set ([] ∷ []) (terminate ∷ []) [] (refl, tt) (omega arith)
      one_signal (codes "--port" ∷ codes "1123" ∷ codes "start" ∷ []) (codes "start") on_port refl
      accepted_runs valid_runs
