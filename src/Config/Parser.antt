-- ===== src/Config/Parser.antt =====
-- `ConfigParser` and its three formats (src/simple-ntpd/config/parser.cpp) on the contents of a
-- file. `parseFile` is `parse_string` on what it reads, or false.
pub mod Lines
pub mod RoundTrip
use simple_ntpd.Common.{
  ℕ, ◌+◌, ◌-◌, ◌%◌, ◌^◌, Bool, true, false, ◌&&◌, ◌||◌, Option, none, some, List, [], ◌∷◌, map,
  ◌==◌, if◌then◌else◌, is_empty, length, take, drop, leb,
}
use simple_ntpd.Common.Text.{
  Bytes, codes, equal, find, lower, split_on, strip, is_white, stoi, stoull,
}
use simple_ntpd.Config.{NtpConfig}
use simple_ntpd.Config.Fields.{set_text, set_flag, set_signed, set_count, set_list}
use simple_ntpd.Config.Settings.{
  Setting, text, flag, port, stratum_value, level_value, auth_method, selection, signed, list,
  count, bounded, find_setting, set_port, set_stratum, set_level, set_within, algorithm_of,
  selection_of, nonempty,
}
use simple_ntpd.Config.Keys.{keys}
use simple_ntpd.Config.File.{front, back, without_quotes}

unfoldable pub trim : Bytes → Bytes
trim s = strip is_white s

unfoldable pub parse_list : Bytes → List Bytes
unfolding trim
parse_list value = nonempty (map trim (split_on b',' value))

unfoldable pub string_to_bool : Bytes → Bool
string_to_bool value =
    let s : Bytes = lower value in
    equal s (codes "true")
    || (equal s (codes "1")
        || (equal s (codes "yes") || (equal s (codes "on") || equal s (codes "enabled"))))

-- A conversion that throws changes nothing.
unfoldable pub if_number {ℓ} :
    {A : Type ℓ} → Option A → (A → NtpConfig → NtpConfig) → NtpConfig → NtpConfig
if_number none assign c = c
if_number (some n) assign c = assign n c

unfoldable pub assign_key : Setting → Bytes → NtpConfig → NtpConfig
unfolding if_number parse_list string_to_bool
assign_key (text f) v c = set_text f v c
assign_key (flag f) v c = set_flag f (string_to_bool v) c
assign_key port v c = if_number (stoi v) set_port c
assign_key stratum_value v c = if_number (stoi v) set_stratum c
assign_key level_value v c = if_number (stoi v) set_level c
assign_key auth_method v c = record c { authentication_algorithm = algorithm_of (lower v) }
assign_key selection v c = record c { upstream_selection_algorithm = selection_of (lower v) }
assign_key (signed f) v c = if_number (stoi v) (set_signed f) c
assign_key (list f) v c = set_list f (parse_list v) c
assign_key (count f) v c = if_number (stoull v) (λ n. set_count f (n % 2 ^ 32)) c
assign_key (bounded f) v c = if_number (stoull v) (set_within f) c

-- An unknown key changes nothing and yields false.
unfoldable pub assign_found : Option Setting → Bytes → NtpConfig → NtpConfig × Bool
unfolding assign_key
assign_found none v c = (c, false)
assign_found (some s) v c = (assign_key s v c, true)

unfoldable pub parse_key_value : Bytes → Bytes → NtpConfig → NtpConfig × Bool
unfolding assign_found keys
parse_key_value key value c = assign_found (find_setting (lower key) keys) value c

pub data ConfigParser : Type 0 where
  ini_config_parser json_config_parser yaml_config_parser : ConfigParser

unfoldable pub is_comment : ConfigParser → Bytes → Bool
is_comment ini_config_parser line = front line == b'#' || front line == b';'
is_comment json_config_parser line = front line == b'/' || front line == b'*'
is_comment yaml_config_parser line = front line == b'#'

unfoldable pub separator : ConfigParser → ℕ
separator ini_config_parser = b'='
separator json_config_parser = b':'
separator yaml_config_parser = b':'

-- A comma at the end of the value.
unfoldable pub without_comma : Bytes → Bytes
without_comma s = if leb 1 (length s) && back s == b',' then take (length s - 1) s else s

-- Quotes and commas of JSON.
unfoldable pub clean_key : ConfigParser → Bytes → Bytes
clean_key json_config_parser key = without_quotes key
clean_key _ key = key

unfoldable pub clean_value : ConfigParser → Bytes → Bytes
unfolding without_comma
clean_value json_config_parser value = without_quotes (without_comma (without_quotes value))
clean_value _ value = value

unfoldable pub key_value_at : ConfigParser → Option ℕ → Bytes → NtpConfig → NtpConfig
unfolding clean_key clean_value
key_value_at parser none line c = c
key_value_at parser (some pos) line c =
    (parse_key_value (clean_key parser (trim (take pos line)))
      (clean_value parser (trim (drop (pos + 1) line))) c).0

unfoldable pub parse_trimmed : ConfigParser → Bytes → NtpConfig → NtpConfig
unfolding is_comment separator key_value_at
parse_trimmed parser line c =
    if is_empty line || is_comment parser line
    then c
    else key_value_at parser (find (separator parser) line) line c

unfoldable pub parse_rows : ConfigParser → List Bytes → NtpConfig → NtpConfig
unfolding parse_trimmed
parse_rows parser [] c = c
parse_rows parser (line ∷ lines) c = parse_rows parser lines (parse_trimmed parser (trim line) c)

-- `parseString` of the three parsers
unfoldable pub parse_string : ConfigParser → Bytes → NtpConfig → NtpConfig
unfolding parse_rows
parse_string parser contents c = parse_rows parser (split_on 10 contents) c

-- `parseFile`
unfoldable pub parse_file : ConfigParser → Option Bytes → NtpConfig → NtpConfig × Bool
unfolding parse_string
parse_file parser none c = (c, false)
parse_file parser (some contents) c = (parse_string parser contents c, true)
