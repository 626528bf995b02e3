-- ===== src/Config/Examples.antt =====
-- Runs of the readers of settings.
use simple_ntpd.Common.{◌≡◌, refl, arith, true, some, List, [], ◌∷◌, All}
use simple_ntpd.Common.Text.{Bytes, codes, equal, lower, to_lower, strip, drop_front, drop_back}
use simple_ntpd.Config.{set_defaults}
use simple_ntpd.Config.Settings.{find_setting}
use simple_ntpd.Config.Keys.{keys}
use simple_ntpd.Config.CommandLine.{is_true, parse_command_line_arg, parse_arguments}
use simple_ntpd.Config.File.{parse_config_file}
use simple_ntpd.Config.File.Lines.{
  quoted_lines, assign_all, IsAssignment, parse_config_file-quoted_lines,
}
use simple_ntpd.Config.Limits.{IsWithinLimits}
use simple_ntpd.Config.Ranges.{readers-IsWithinLimits}
use simple_ntpd.Config.Parser.{
  ini_config_parser, trim, is_comment, separator, parse_string, parse_key_value, string_to_bool,
  assign_found,
}
use simple_ntpd.Config.Parser.RoundTrip.{IsRow, written_all, assign_rows, parse_string-written}
use simple_ntpd.Config.Equivalence.{parse_key_value-parse_command_line_arg}

abbrev two : List (Bytes × Bytes)
two = (codes "acl", codes "yes") ∷ (codes "port", codes "123") ∷ []

two-IsAssignment : All IsAssignment two
two-IsAssignment = (
  (
    (refl, refl, refl, (refl, (refl, (refl, tt))), (refl, (refl, (refl, tt)))),
    (refl, (refl, (refl, tt))),
  ),
  (
    (
      (refl, refl, refl, (refl, (refl, (refl, (refl, tt)))), (refl, (refl, (refl, (refl, tt))))),
      (refl, (refl, (refl, tt))),
    ),
    tt,
  ),
)

parse_config_file-quoted_lines_example :
    parse_config_file (some (quoted_lines two)) set_defaults ≡ (assign_all two set_defaults, true)
parse_config_file-quoted_lines_example =
    parse_config_file-quoted_lines two set_defaults two-IsAssignment

two-IsRow : All (IsRow ini_config_parser) two
unfolding is_comment separator trim strip drop_front drop_back
two-IsRow = (
  (
    (refl, refl, refl, refl, refl, (refl, (refl, (refl, tt)))),
    ((refl, (refl, (refl, tt))), (refl, (refl, (refl, tt)))),
  ),
  (
    (
      (refl, refl, refl, refl, refl, (refl, (refl, (refl, (refl, tt))))),
      ((refl, (refl, (refl, (refl, tt)))), (refl, (refl, (refl, tt)))),
    ),
    tt,
  ),
)

parse_string-written_example :
    parse_string ini_config_parser (written_all ini_config_parser two) set_defaults
    ≡ assign_rows two set_defaults
parse_string-written_example = parse_string-written ini_config_parser two set_defaults two-IsRow

acl_known : (parse_key_value (codes "ACL") (codes "yes") set_defaults).1 ≡ true
unfolding parse_key_value find_setting keys equal lower to_lower assign_found
acl_known = refl

yes_agrees : string_to_bool (codes "yes") ≡ is_true (codes "yes")
unfolding string_to_bool equal lower to_lower
yes_agrees = refl

parse_key_value-parse_command_line_arg_example :
    (parse_key_value (codes "ACL") (codes "yes") set_defaults).0
    ≡ (parse_command_line_arg (codes "ACL") (codes "yes") set_defaults).0
parse_key_value-parse_command_line_arg_example =
    parse_key_value-parse_command_line_arg (codes "ACL") (codes "yes") set_defaults acl_known
      yes_agrees (refl, (refl, (refl, tt)))

defaults-IsWithinLimits : IsWithinLimits set_defaults
unfolding set_defaults
defaults-IsWithinLimits =
    (omega arith, omega arith, omega arith, omega arith, omega arith, omega arith)

readers-IsWithinLimits_example : IsWithinLimits (
    parse_arguments
      (codes "--threads=65" ∷ [])
      (parse_config_file (some (codes "stratum=16")) set_defaults).0)
readers-IsWithinLimits_example =
    readers-IsWithinLimits (some (codes "stratum=16")) (codes "--threads=65" ∷ []) set_defaults
      defaults-IsWithinLimits
