-- ===== src/Logger/Message.antt =====
-- The text of a log message (src/simple-ntpd/utils/logger.cpp).
use simple_ntpd.Common.{ℕ, ◌+◌, Bool, not, ◌||◌, [], ◌∷◌, ◌++◌, ◌==◌, if◌then◌else◌, is_empty}
use simple_ntpd.Common.Int.{ℤ, pos, negsuc}
use simple_ntpd.Common.Text.{Bytes, codes, to_string}
use simple_ntpd.Config.{LogLevel, debug, info, warning, error, fatal, other}

unfoldable pub level_to_string : LogLevel → Bytes
level_to_string debug = codes "DEBUG"
level_to_string info = codes "INFO"
level_to_string warning = codes "WARNING"
level_to_string error = codes "ERROR"
level_to_string fatal = codes "FATAL"
level_to_string (other n) = codes "UNKNOWN"

-- The priorities of <syslog.h>.
unfoldable pub level_to_syslog_priority : LogLevel → ℕ
level_to_syslog_priority debug = 7
level_to_syslog_priority info = 6
level_to_syslog_priority warning = 4
level_to_syslog_priority error = 3
level_to_syslog_priority fatal = 2
level_to_syslog_priority (other n) = 6

abbrev pub level_number : LogLevel → ℤ
level_number debug = pos 0
level_number info = pos 1
level_number warning = pos 2
level_number error = pos 3
level_number fatal = pos 4
level_number (other n) = n

-- A quote or a backslash gets a backslash in front.
unfoldable pub escape : Bytes → Bytes
escape [] = []
escape (c ∷ cs) = if c == b'\\' || c == b'"' then b'\\' ∷ c ∷ escape cs else c ∷ escape cs

unfoldable pub line_number : ℤ → Bytes
line_number (pos n) = to_string n
line_number (negsuc n) = b'-' ∷ to_string (n + 1)

-- `[thing] `
abbrev pub bracketed : Bytes → Bytes
bracketed s = codes "[" ++ s ++ codes "] "

-- `"key":"value"`
abbrev pub json_field : Bytes → Bytes → Bytes
json_field key value = codes "\"" ++ key ++ codes "\":\"" ++ value ++ codes "\""

unfoldable pub plain_source : Bytes → ℤ → Bytes
unfolding line_number
plain_source source line =
    if is_empty source then [] else bracketed (source ++ codes ":" ++ line_number line)

unfoldable pub json_source : Bytes → ℤ → Bytes
unfolding line_number
json_source source line =
    if is_empty source
    then []
    else codes "\"source\":{"
      ++ json_field (codes "file") source
      ++ codes ",\"line\":"
      ++ line_number line
      ++ codes "},"

-- What a call of `log` is given.
pub record Entry : Type 0 where
  pub severity : LogLevel
  pub message : Bytes
  pub source : Bytes
  pub line : ℤ
  pub timestamp : Bytes
  pub thread : Bytes

-- Whether structured, and what is logged.
unfoldable pub format_message : Bool → Entry → Bytes
unfolding level_to_string plain_source json_source escape
format_message structured_json e =
    let level : Bytes = level_to_string e.severity in
    if not structured_json
    then bracketed e.timestamp
      ++ bracketed level
      ++ bracketed e.thread
      ++ plain_source e.source e.line
      ++ e.message
    else codes "{"
      ++ json_field (codes "ts") e.timestamp
      ++ codes ","
      ++ json_field (codes "level") level
      ++ codes ","
      ++ json_field (codes "thread") e.thread
      ++ codes ","
      ++ json_source e.source e.line
      ++ json_field (codes "msg") (escape e.message)
      ++ codes "}"
