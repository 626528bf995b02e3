-- ===== src/Logger/Runs.antt =====
-- Runs of the logger.
use simple_ntpd.Common.{
  if◌then◌else◌, true, [], ◌+◌, ◌≡◌, ◌≤◌, refl, arith, false, none, some, ◌∷◌, ◌++◌, if◌then◌else◌,
}
use simple_ntpd.Common.Text.{codes, equal}
use simple_ntpd.Logger.{Logger, new_logger, rotate_logs, output_to_file}
use simple_ntpd.Logger.Files.{FileSystem, file_size}
use simple_ntpd.Logger.Message.{escape}
use simple_ntpd.Logger.Escape.{read_json, has_no_control, read_json-escape}
use simple_ntpd.Logger.Rotation.{IsRotated, rotate_logs-IsRotated}
use simple_ntpd.Logger.Size.{output_to_file-size}

read_json-escape_example :
    read_json false (escape (codes "say \"no\"") ++ b'"' ∷ codes "}")
    ≡ (if has_no_control (codes "say \"no\"") then some (codes "say \"no\"", codes "}") else none)
read_json-escape_example = read_json-escape (codes "say \"no\"") (codes "}")

-- A line break stays in the text, and the reader refuses it.
line_break_runs :
    (has_no_control (codes "say \"no\"") ≡ true)
    × (read_json false (escape (98 ∷ 10 ∷ []) ++ b'"' ∷ []) ≡ none)
unfolding read_json escape has_no_control
line_break_runs = (refl, refl)

abbrev one_log : FileSystem
one_log path = if equal path (codes "ntp") then some (codes "full") else none

rotate_logs-IsRotated_example :
    IsRotated (codes "ntp") 3 one_log (rotate_logs (codes "ntp") 3 one_log)
rotate_logs-IsRotated_example =
    rotate_logs-IsRotated (codes "ntp") 3 one_log (omega arith) (omega arith)

abbrev small_logger : Logger
small_logger = record new_logger {
  log_file = codes "ntp";
  rotate_max_size_bytes = 4;
  rotate_max_files = 3;
}

output_to_file-size_example :
    file_size (codes "ntp") (output_to_file small_logger (codes "more") one_log) ≤ 4 + 4
output_to_file-size_example =
    output_to_file-size small_logger one_log (codes "more") refl (omega arith) (omega arith)
      (omega arith)
