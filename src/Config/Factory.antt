-- ===== src/Config/Factory.antt =====
-- `ConfigParserFactory` (src/simple-ntpd/config/parser.cpp) and what the parsers say of themselves.
pub mod Detection
use simple_ntpd.Common.{ℕ, ◌||◌, Option, none, some, List, [], ◌∷◌, ◌==◌, if◌then◌else◌}
use simple_ntpd.Common.Text.{Bytes, codes, equal, lower}
use simple_ntpd.Config.Parser.{
  ConfigParser, ini_config_parser, json_config_parser, yaml_config_parser,
}

pub data ConfigFormat : Type 0 where
  ini json yaml unknown : ConfigFormat

-- `none` is a null pointer.
unfoldable pub create_parser : ConfigFormat → Option ConfigParser
create_parser ini = some ini_config_parser
create_parser json = some json_config_parser
create_parser yaml = some yaml_config_parser
create_parser unknown = none

unfoldable pub or_behind : ℕ → ℕ → Bytes → Option Bytes → Option Bytes
or_behind c x xs (some rest) = some rest
or_behind c x xs none = if x == c then some xs else none

-- What stands behind the last `c`.
unfoldable pub after_last : ℕ → Bytes → Option Bytes
unfolding or_behind
after_last c [] = none
after_last c (x ∷ xs) = or_behind c x xs (after_last c xs)

unfoldable pub format_of : Bytes → ConfigFormat
format_of extension =
    if equal extension (codes "ini") || equal extension (codes "conf")
    then ini
    else if equal extension (codes "json")
    then json
    else if equal extension (codes "yml") || equal extension (codes "yaml")
    then yaml
    else unknown

unfoldable pub format_behind : Option Bytes → ConfigFormat
unfolding format_of
format_behind none = unknown
format_behind (some extension) = format_of (lower extension)

unfoldable pub detect_format : Bytes → ConfigFormat
unfolding after_last format_behind
detect_format filename = format_behind (after_last b'.' filename)

unfoldable pub create_parser_from_file : Bytes → Option ConfigParser
unfolding create_parser detect_format
create_parser_from_file filename = create_parser (detect_format filename)

unfoldable pub get_supported_formats : List ConfigFormat
get_supported_formats = ini ∷ json ∷ yaml ∷ []

unfoldable pub get_supported_extensions : ConfigParser → List Bytes
get_supported_extensions ini_config_parser = codes "ini" ∷ codes "conf" ∷ codes "cfg" ∷ []
get_supported_extensions json_config_parser = codes "json" ∷ []
get_supported_extensions yaml_config_parser = codes "yml" ∷ codes "yaml" ∷ []

-- `ConfigParser::getFormatName`, and the factory's for a format.
unfoldable pub get_format_name : ConfigParser → Bytes
get_format_name ini_config_parser = codes "INI"
get_format_name json_config_parser = codes "JSON"
get_format_name yaml_config_parser = codes "YAML"

unfoldable pub format_name : ConfigFormat → Bytes
format_name ini = codes "INI"
format_name json = codes "JSON"
format_name yaml = codes "YAML"
format_name unknown = codes "UNKNOWN"
