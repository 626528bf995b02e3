-- ===== src/Program/Main.antt =====
-- `main` (src/main/production.cpp) from its arguments to its end, where nothing throws and signals come
-- while it sleeps in its loop.
use simple_ntpd.Common.{Bool, false, not, Option, none, some, List, if◌then◌else◌}
use simple_ntpd.Common.Text.{Bytes}
use simple_ntpd.Config.{NtpConfig, set_defaults}
use simple_ntpd.Logger.{Logger, new_logger}
use simple_ntpd.Server.{NtpServer, new_server}
use simple_ntpd.Server.Lifecycle.{SocketAnswers, start}
use simple_ntpd.Server.Reports.{Measures}
use simple_ntpd.Program.{parse_command_line, configure_logger}
use simple_ntpd.Program.Session.{Signal, Ending, one_shot, serve}

-- What the system answers to a start, what the reports read, and the signals that come in each
-- pause of the loop.
pub record Outside : Type 0 where
  pub answers : SocketAnswers
  pub exists : Bytes → Bool
  pub measures : Measures
  pub pauses : List (List Signal)

module _ (getenv files : Bytes → Option Bytes) where
  -- The end behind a one-shot command, or that of the loop.
  abbrev pub end_of : Outside → Logger → NtpServer → Option (Bytes × NtpServer) → Option Ending
  end_of o l s (some (text, t)) = some (record { code = 0; server = some t })
  end_of o l s none = serve o.pauses (record { server = s; logger = l; shutdown_requested = false })

  unfoldable pub after_start : Outside → Bytes → Logger → NtpServer → Option Ending
  after_start o command l s = end_of o l s (one_shot getenv files o.exists o.measures command l s)

  -- Behind the options; a command line that is not accepted ends the program.
  unfoldable pub after_options : Outside → Option (Bytes × NtpConfig) → Option Ending
  unfolding after_start configure_logger new_logger
  after_options o none = some (record { code = 0; server = none })
  after_options o (some (command, c)) =
      let (s, started) = start o.answers (new_server c) in
      if not started
      then some (record { code = 1; server = some s })
      else after_start o command (configure_logger getenv files c new_logger) s

  -- The end of the program; `none` while it goes on.
  unfoldable pub main : Outside → List Bytes → Option Ending
  unfolding after_options parse_command_line
  main o args = after_options o (parse_command_line getenv files args set_defaults)
