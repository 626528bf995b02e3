-- ===== src/Program.antt =====
-- src/main/production.cpp: the options of the program. What is printed is left
-- out; a command line that is not accepted is `none`. `getenv` is the environment and `files` gives
-- the contents of a path.
pub mod Exit
pub mod Session
pub mod Main
mod Runs
use simple_ntpd.Common.{
  ℕ, Bool, true, false, not, ◌&&◌, ◌||◌, Option, none, some, List, [], ◌∷◌, ◌==◌, if◌then◌else◌,
  is_empty, leb, ◌|>◌,
}
use simple_ntpd.Common.Int.{ℤ, pos, negsuc}
use simple_ntpd.Common.Text.{Bytes, codes, equal, stoi}
use simple_ntpd.Config.{NtpConfig, LogLevel, set_defaults}
use simple_ntpd.Config.File.{front, load_from_file}
use simple_ntpd.Config.Settings.{is_named, set_port}
use simple_ntpd.Logger.{
  Logger, LogDestination, console, file, set_level, set_destination, set_structured_json,
  set_log_file, set_log_rotation,
}
use simple_ntpd.Server.{NtpServer, new_server}
use simple_ntpd.Server.Lifecycle.{SocketAnswers, start}

-- The options that take the next argument as their value.
pub data ValueOption : Type 0 where
  config listen port stratum reference_id : ValueOption

-- Behind some arguments: the option that waits for its value, the command, and the configuration.
pub record Parsing : Type 0 where
  pub waiting : Option ValueOption
  pub command : Bytes
  pub settings : NtpConfig

abbrev pub go_on : Bytes → NtpConfig → Option Parsing
go_on command c = some (record { waiting = none; command = command; settings = c })

abbrev pub wait_for : ValueOption → Bytes → NtpConfig → Option Parsing
wait_for option command c = some (record { waiting = some option; command = command; settings = c })

-- An argument where no value is waited for. The checks of the configuration end the program whether
-- it is valid or not.
unfoldable pub parse_option : Bytes → Bytes → NtpConfig → Option Parsing
unfolding is_named
parse_option arg command c =
    if is_named arg (codes "--help" ∷ codes "-h" ∷ codes "--version" ∷ codes "-v" ∷ [])
    then none
    else if is_named arg (codes "--config" ∷ codes "-c" ∷ [])
    then wait_for config command c
    else if is_named arg (codes "--verbose" ∷ codes "-V" ∷ [])
    then go_on command (record c { log_level = LogLevel.debug })
    else if is_named arg (codes "--daemon" ∷ codes "-d" ∷ [])
    then go_on command (record c { enable_console_logging = false })
    else if is_named arg (codes "--foreground" ∷ codes "-f" ∷ [])
    then go_on command (record c { enable_console_logging = true })
    else if equal arg (codes "--listen")
    then wait_for listen command c
    else if equal arg (codes "--port")
    then wait_for port command c
    else if equal arg (codes "--stratum")
    then wait_for stratum command c
    else if equal arg (codes "--reference-id")
    then wait_for reference_id command c
    else if is_named arg (codes "--test-config" ∷ codes "--validate" ∷ [])
    then none
    else if not (front arg == b'-')
    then go_on arg c
    else none

abbrev pub accept_loaded : NtpConfig × Bool → Option NtpConfig
accept_loaded (c, true) = some c
accept_loaded (c, false) = none

abbrev pub accept_port : Option ℤ → NtpConfig → Option NtpConfig
accept_port none c = none
accept_port (some n) c = some (set_port n c)

abbrev pub accept_stratum : Option ℤ → NtpConfig → Option NtpConfig
accept_stratum none c = none
accept_stratum (some (negsuc n)) c = none
accept_stratum (some (pos n)) c =
    if leb 1 n && leb n 15 then some (record c { stratum = n }) else none

module _ (getenv files : Bytes → Option Bytes) where
  unfoldable pub take_value : ValueOption → Bytes → NtpConfig → Option NtpConfig
  take_value config v c = accept_loaded (load_from_file getenv v (files v) c)
  take_value listen v c = some (record c { listen_address = v })
  take_value port v c = accept_port (stoi v) c
  take_value stratum v c = accept_stratum (stoi v) c
  take_value reference_id v c = some (record c { reference_id = v })

  abbrev pub then_go_on : Bytes → Option NtpConfig → Option Parsing
  then_go_on command none = none
  then_go_on command (some c) = go_on command c

  unfoldable pub parse_next : Bytes → Parsing → Option Parsing
  unfolding parse_option take_value
  parse_next arg p = elim p.waiting [
    | none ↦ parse_option arg p.command p.settings
    | some option ↦ then_go_on p.command (take_value option arg p.settings)
  ]

  -- The loop over the arguments.
  unfoldable pub parse_all : List Bytes → Option Parsing → Option Parsing
  unfolding parse_next
  parse_all [] p = p
  parse_all (arg ∷ args) none = none
  parse_all (arg ∷ args) (some p) = parse_all args (parse_next arg p)

  abbrev pub served_commands : List Bytes
  served_commands =
      codes "start"
      ∷ codes "status"
      ∷ codes "reload"
      ∷ codes "metrics"
      ∷ codes "health"
      ∷ codes "stats"
      ∷ codes "connections"
      ∷ []

  -- The command, `start` if there is none. An option that still waits is an error.
  unfoldable pub choose_command : Option Parsing → Option (Bytes × NtpConfig)
  unfolding is_named
  choose_command none = none
  choose_command (some p) =
      let command : Bytes = if is_empty p.command then codes "start" else p.command in
      elim p.waiting [
        | some option ↦ none
        | none ↦ if is_named command served_commands then some (command, p.settings) else none
      ]

  unfoldable pub parse_command_line : List Bytes → NtpConfig → Option (Bytes × NtpConfig)
  unfolding parse_all choose_command
  parse_command_line args c = choose_command (parse_all args (go_on [] c))

  -- The settings of the logger that `main` makes.
  unfoldable pub configure_logger : NtpConfig → Logger → Logger
  unfolding set_log_file set_level set_destination set_structured_json set_log_rotation
  configure_logger c l =
      set_log_file c.log_file l
      |> set_level c.log_level
      |> set_destination (if c.enable_console_logging then console else file)
      |> set_structured_json c.log_json
      |> set_log_rotation c.log_max_size_bytes c.log_max_files
