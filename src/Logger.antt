-- ===== src/Logger.antt =====
-- `Logger` (src/simple-ntpd/utils/logger.cpp). The time stamp and the thread's id are arguments. The
-- mutex makes each call one step.
pub mod Files
pub mod Message
pub mod Escape
pub mod OldLogs
pub mod Rotation
pub mod Size
mod Runs
use simple_ntpd.Common.{
  ℕ, zero, suc, ◌+◌, ◌-◌, ◌^◌, Bool, true, false, not, ◌&&◌, ◌||◌, List, [], ◌∷◌, ◌++◌, ◌==◌,
  if◌then◌else◌, is_empty, ltb, leb, ◌|>◌,
}
use simple_ntpd.Common.Int.{ℤ, pos, negsuc, pos_part, ltb_ℤ, to_signed}
use simple_ntpd.Common.Text.{Bytes, codes, to_string}
use simple_ntpd.Config.{LogLevel, debug, info, warning, error, fatal, other}
use simple_ntpd.Logger.Message.{level_number, level_to_syslog_priority, Entry, format_message}
use simple_ntpd.Logger.Files.{FileSystem, exists, remove, rename, file_size, append}

pub data LogDestination : Type 0 where
  console file syslog both multiple : LogDestination

pub record Logger : Type 0 where
  pub level : LogLevel
  pub destination : LogDestination
  pub log_file : Bytes
  pub enable_syslog : Bool
  pub syslog_facility : ℤ
  pub structured_json : Bool
  pub rotate_max_size_bytes : ℕ
  pub rotate_max_files : ℕ

-- `Impl()`; LOG_DAEMON is 3 << 3.
unfoldable pub new_logger : Logger
new_logger = record {
  level = info;
  destination = console;
  log_file = [];
  enable_syslog = false;
  syslog_facility = pos 24;
  structured_json = false;
  rotate_max_size_bytes = 0;
  rotate_max_files = 5;
}

unfoldable pub set_level : LogLevel → Logger → Logger
set_level level l = record l { level = level }

unfoldable pub set_destination : LogDestination → Logger → Logger
set_destination destination l = record l { destination = destination }

unfoldable pub set_structured_json : Bool → Logger → Logger
set_structured_json enable l = record l { structured_json = enable }

unfoldable pub set_log_file : Bytes → Logger → Logger
set_log_file name l = record l { log_file = name }

-- `std::max(1u, max_files)`
unfoldable pub set_log_rotation : ℕ → ℕ → Logger → Logger
set_log_rotation max_size max_files l = record l {
  rotate_max_size_bytes = max_size;
  rotate_max_files = if ltb max_files 1 then 1 else max_files;
}

unfoldable pub set_syslog : Bool → ℤ → Logger → Logger
set_syslog enable facility l = record l { enable_syslog = enable; syslog_facility = facility }

-- What the world outside the file system sees.
pub data Output : Type 0 where
  on_console : Bytes → Output
  to_syslog : ℕ → Bytes → Output

-- The color codes of the console.
unfoldable pub color_code : LogLevel → Bytes
color_code debug = 27 ∷ codes "[36m"
color_code info = 27 ∷ codes "[32m"
color_code warning = 27 ∷ codes "[33m"
color_code error = 27 ∷ codes "[31m"
color_code fatal = 27 ∷ codes "[35m"
color_code (other n) = 27 ∷ codes "[0m"

unfoldable pub output_to_console : LogLevel → Bytes → Output
unfolding color_code
output_to_console level s = on_console (color_code level ++ s ++ 27 ∷ codes "[0m" ++ 10 ∷ [])

unfoldable pub output_to_syslog : LogLevel → Bytes → Output
unfolding level_to_syslog_priority
output_to_syslog level s = to_syslog (level_to_syslog_priority level) s

-- The i-th old log of a log file.
unfoldable pub old_log : Bytes → ℕ → Bytes
old_log name i = name ++ b'.' ∷ to_string i

-- if (exists(src)) rename(src, dst)
unfoldable pub move_if_there : Bytes → Bytes → FileSystem → FileSystem
unfolding exists rename
move_if_there src dst files = if exists src files then rename src dst files else files

-- The loop over i from so many down to 1.
unfoldable pub shift_logs : Bytes → ℕ → FileSystem → FileSystem
unfolding move_if_there old_log
shift_logs name zero files = files
shift_logs name (suc i) files =
    shift_logs name i (move_if_there (old_log name (i + 1)) (old_log name (i + 2)) files)

unfoldable pub rotate_logs : Bytes → ℕ → FileSystem → FileSystem
unfolding remove shift_logs
rotate_logs name max_files files =
    remove (old_log name max_files) files
    |> shift_logs name (pos_part (to_signed (2 ^ 32) max_files) - 1)
    |> move_if_there name (old_log name 1)

unfoldable pub needs_rotation : Logger → FileSystem → Bool
unfolding exists file_size
needs_rotation l files =
    not (is_empty l.log_file)
    && ltb 0 l.rotate_max_size_bytes
    && exists l.log_file files
    && leb l.rotate_max_size_bytes (file_size l.log_file files)

unfoldable pub output_to_file : Logger → Bytes → FileSystem → FileSystem
unfolding rotate_logs needs_rotation append
output_to_file l s files =
    (if needs_rotation l files then rotate_logs l.log_file l.rotate_max_files files else files)
    |> append l.log_file (s ++ 10 ∷ [])

abbrev pub to_console : LogDestination → Bool
to_console console = true
to_console both = true
to_console _ = false

abbrev pub to_file : LogDestination → Bool
to_file file = true
to_file both = true
to_file _ = false

abbrev pub only_if {ℓ} : {A : Type ℓ} → Bool → A → List A
only_if true a = a ∷ []
only_if false a = []

unfoldable pub log : Logger → Entry → FileSystem → List Output × FileSystem
unfolding format_message output_to_console output_to_syslog output_to_file
log l e files =
    let text : Bytes = format_message l.structured_json e in
    let outputs : List Output =
      only_if (to_console l.destination) (output_to_console e.severity text)
      ++ only_if l.enable_syslog (output_to_syslog e.severity e.message) in
    if ltb_ℤ (level_number e.severity) (level_number l.level)
    then ([], files)
    else if to_file l.destination && not (is_empty l.log_file)
    then (outputs, output_to_file l text files)
    else (outputs, files)
