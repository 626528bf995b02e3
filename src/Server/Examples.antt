-- ===== src/Server/Examples.antt =====
-- Runs of the receive loop and of a reload.
use simple_ntpd.Common.{
  ℕ, zero, suc, ◌+◌, ◌^◌, ◌<◌, ◌≤◌, ◌≡◌, ◌≢◌, ◌⊎◌, ◌∷◌, refl, arith, true, false, Option, none,
  some, [],
}
use simple_ntpd.Common.Text.{Bytes, codes}
use simple_ntpd.Common.Result.{ok}
use simple_ntpd.Config.{AuthAlgorithm, set_defaults}
use simple_ntpd.Logger.{new_logger}
use simple_ntpd.Server.{NtpServer, new_server}
use simple_ntpd.Server.Lifecycle.{SocketAnswers}
use simple_ntpd.Server.Process.{Arrival}
use simple_ntpd.Common.Int.{pos}
use simple_ntpd.Server.Receive.{
  Event, failed, no_data, process_incoming_packets, turn, restart, reopen,
}
use simple_ntpd.Server.Receive.Returns.{
  Outcome, at_no_data, at_failure, process_incoming_packets-gives_up,
}
use simple_ntpd.Server.Receive.Refinement.{
  followed_by, process_all, process_incoming_packets-process_all,
}
use simple_ntpd.Server.Workers.{
  Workers, joining, before_start, WorkerStep, create, raise_flag, lower_flag, WorkerRun, stay,
  and_then,
}
use simple_ntpd.Server.Workers.Stopping.{stop_progress}
use simple_ntpd.Server.Reload.{reload_config}
use simple_ntpd.Server.Reload.Outcome.{IsLoaded, IsAdopted, reread, reload_config_cases}

abbrev without_digest : AuthAlgorithm → Bytes → Option Bytes
without_digest algorithm text = none

abbrev without_address : Bytes → Option ℕ
without_address text = none

abbrev working : SocketAnswers
working = record { opened = some 5; address_known = true; bound = true }

abbrev healing : NtpServer
healing =
    new_server
      (record set_defaults { enable_self_healing = true; last_config_file = codes "/etc/ntp" })

-- One error, and then no more data.
abbrev one_failure : ℕ → Event
one_failure zero = failed working
one_failure (suc i) = no_data

abbrev only_failures : ℕ → Event
only_failures i = failed working

abbrev healed : NtpServer
healed = record healing { restart_count = 1; server_socket = some 5 }

one_failure_runs :
    process_incoming_packets without_digest without_address 2 one_failure healing
    ≡ some (ok (healed, []))
unfolding process_incoming_packets turn restart reopen set_defaults
one_failure_runs = refl

-- An empty datagram, one that is no request, and then no more data.
abbrev short : Arrival
short = record {
  buffer = 27 ∷ [];
  client_ip = codes "10.0.0.7";
  client_port = 123;
  minute = 9;
  second = 540;
  clock = record { at_receive = pos 0; at_transmit = pos 0; at_reference = pos 0 };
  draw = 0;
  sent = true;
  duration_us = 1;
}

process_incoming_packets-process_all_example :
    process_incoming_packets without_digest without_address 3
      (followed_by (record short { buffer = [] } ∷ short ∷ []) (λ i. no_data))
      healing
    ≡ some (
        process_all without_digest without_address
          (record short { buffer = [] } ∷ short ∷ [])
          healing)
process_incoming_packets-process_all_example =
    process_incoming_packets-process_all without_digest without_address
      (record short { buffer = [] } ∷ short ∷ []) (λ i. no_data) healing at_no_data

default_limit :
    (set_defaults.service_restart_limit < 2 ^ 32) × (set_defaults.service_restart_limit ≤ 0 + 3)
unfolding set_defaults
default_limit = (omega arith, omega arith)

process_incoming_packets-gives_up_example :
    (r : Outcome) × (process_incoming_packets without_digest without_address 4 only_failures healing
      ≡ some r)
process_incoming_packets-gives_up_example =
    process_incoming_packets-gives_up without_digest without_address 3 only_failures healing
      (λ i. at_failure working) default_limit.0 default_limit.1

abbrev no_variable : Bytes → Option Bytes
no_variable name = none

abbrev one_file : Bytes → Option Bytes
one_file path = some (codes "stratum=3")

reload_config_cases_example :
    (¬ (
        (healing.config.last_config_file ≢ [])
        × IsLoaded (reread no_variable one_file new_logger healing))
      × (reload_config no_variable one_file new_logger healing ≡ (healing, new_logger, false)))
    ⊎ (((healing.config.last_config_file ≢ [])
          × IsLoaded (reread no_variable one_file new_logger healing))
        × IsAdopted
            (reread no_variable one_file new_logger healing).0
            healing
            (reload_config no_variable one_file new_logger healing))
reload_config_cases_example = reload_config_cases no_variable one_file new_logger healing

-- One worker is created, the flag goes up and down.
stopped_early :
    WorkerRun (before_start 1) (record (before_start 0) { phase = joining; created = 1 })
stopped_early =
    and_then (and_then (and_then stay (create 0 refl refl)) (raise_flag refl refl))
      (lower_flag refl)

stop_progress_example :
    (((before_start 0).ended ≡ 1)
      ⊎ ((v : Workers) × WorkerStep (record (before_start 0) { phase = joining; created = 1 }) v))
    × ((v : Workers)
        → WorkerStep (record (before_start 0) { phase = joining; created = 1 }) v
        → (v.phase ≡ joining) × (v.created + v.looping < 1 + 0))
stop_progress_example = stop_progress 1 _ stopped_early refl
