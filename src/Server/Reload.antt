-- ===== src/Server/Reload.antt =====
-- `reloadConfig` (src/simple-ntpd/core/server.cpp) on the server and its logger. `getenv` is the
-- environment, `file` the contents of a path. The callback is left out.
pub mod Outcome
use simple_ntpd.Common.{Bool, true, false, not, ◌&&◌, ◌||◌, Option, if◌then◌else◌, is_empty, ◌|>◌}
use simple_ntpd.Common.Int.{pos}
use simple_ntpd.Common.Text.{Bytes}
use simple_ntpd.Config.{NtpConfig}
use simple_ntpd.Config.File.{load_from_file}
use simple_ntpd.Config.Validate.{validate}
use simple_ntpd.Logger.{
  Logger, LogDestination, console, file, both, set_level, set_destination, set_structured_json,
  set_log_file, set_syslog, set_log_rotation,
}
use simple_ntpd.Server.{NtpServer}

unfoldable pub destination_of : NtpConfig → LogDestination
destination_of c =
    if c.enable_console_logging && not (is_empty c.log_file)
    then both
    else if c.enable_console_logging
    then console
    else file

unfoldable pub apply_logging : NtpConfig → Logger → Logger
unfolding destination_of set_level set_log_file set_destination set_syslog set_structured_json
    set_log_rotation
apply_logging c l =
    set_level c.log_level l
    |> set_log_file c.log_file
    |> set_destination (destination_of c)
    |> set_syslog c.enable_syslog (pos 24)
    |> set_structured_json c.log_json
    |> set_log_rotation c.log_max_size_bytes c.log_max_files

unfoldable pub adopt : NtpConfig × Bool → Logger → NtpServer → NtpServer × Logger × Bool
unfolding apply_logging
adopt (c, loaded) l s =
    if not loaded || not (validate c)
    then (s, l, false)
    else (record s { config = c }, apply_logging c l, true)

unfoldable pub reload_config :
    (Bytes → Option Bytes) → (Bytes → Option Bytes) → Logger → NtpServer → NtpServer × Logger × Bool
unfolding adopt
reload_config getenv files l s =
    let path : Bytes = s.config.last_config_file in
    if is_empty path
    then (s, l, false)
    else adopt (load_from_file getenv path (files path) s.config) l s
