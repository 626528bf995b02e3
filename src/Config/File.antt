-- ===== src/Config/File.antt =====
-- `parseConfigFile` and `loadFromFile` (src/simple-ntpd/config/config.cpp) on the contents of the
-- file, `none` for a file that cannot be opened.
pub mod Lines
pub mod Spaces
use simple_ntpd.Common.{
  ℕ, ◌+◌, ◌-◌, Bool, true, false, ◌&&◌, ◌||◌, Option, none, some, List, [], ◌∷◌, ◌==◌,
  if◌then◌else◌, is_empty, length, take, drop, leb, get_or,
}
use simple_ntpd.Common.Text.{Bytes, find, split_on, strip, is_blank}
use simple_ntpd.Config.{NtpConfig}
use simple_ntpd.Config.CommandLine.{parse_command_line_arg}
use simple_ntpd.Config.Environment.{apply_environment_overrides}

-- `s[0]` and `s[s.length() - 1]`; the byte behind the last is 0.
abbrev pub front : Bytes → ℕ
front s = get_or s 0 0

abbrev pub back : Bytes → ℕ
back s = get_or s (length s - 1) 0

abbrev pub is_quoted : Bytes → Bool
is_quoted s = leb 2 (length s) && (front s == b'"' && back s == b'"')

unfoldable pub without_quotes : Bytes → Bytes
without_quotes s = if is_quoted s then take (length s - 2) (drop 1 s) else s

abbrev pub is_ignored : Bytes → Bool
is_ignored line = is_empty line || (front line == b'#' || front line == b';')

abbrev pub is_section : Bytes → Bool
is_section line = front line == b'[' && back line == b']'

-- The key and the value around the first `=`.
unfoldable pub assign_at : Option ℕ → Bytes → NtpConfig → NtpConfig
unfolding without_quotes
assign_at none line c = c
assign_at (some pos) line c =
    (parse_command_line_arg (take pos line) (without_quotes (drop (pos + 1) line)) c).0

unfoldable pub parse_assignment : Bytes → NtpConfig → NtpConfig
unfolding assign_at
parse_assignment line c = if is_section line then c else assign_at (find b'=' line) line c

unfoldable pub parse_line : Bytes → NtpConfig → NtpConfig
unfolding parse_assignment
parse_line line c = if is_ignored line then c else parse_assignment (strip is_blank line) c

unfoldable pub parse_lines : List Bytes → NtpConfig → NtpConfig
unfolding parse_line
parse_lines [] c = c
parse_lines (line ∷ lines) c = parse_lines lines (parse_line line c)

unfoldable pub parse_config_file : Option Bytes → NtpConfig → NtpConfig × Bool
unfolding parse_lines
parse_config_file none c = (c, false)
parse_config_file (some contents) c = (parse_lines (split_on 10 contents) c, true)

-- `name` is the file's name, `getenv` the environment.
unfoldable pub load_from_file :
    (Bytes → Option Bytes) → Bytes → Option Bytes → NtpConfig → NtpConfig × Bool
unfolding parse_config_file
load_from_file getenv name file c = finish (parse_config_file file c)
  where
    finish : NtpConfig × Bool → NtpConfig × Bool
    finish (c, false) = (c, false)
    finish (c, true) =
        (apply_environment_overrides getenv (record c { last_config_file = name }), true)
