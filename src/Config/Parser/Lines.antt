-- ===== src/Config/Parser/Lines.antt =====
-- What the parsers of src/simple-ntpd/config/parser.cpp make of lines in their formats.
use simple_ntpd.Common.{
  ℕ, ◌+◌, ◌≡◌, refl, ap, ◌∙◌, false, [], ◌∷◌, ◌++◌, if-false, is_empty, length, drop,
}
use simple_ntpd.Common.Text.{Bytes, strip, is_white, drop_back}
use simple_ntpd.Common.Text.Laws.{
  Avoids, take-length_append, drop-length_append, find-append, drop_front-kept, drop_back-append,
  strip-drop_back,
}
use simple_ntpd.Config.{NtpConfig}
use simple_ntpd.Config.File.{front}
use simple_ntpd.Config.Parser.{
  ConfigParser, ini_config_parser, json_config_parser, yaml_config_parser, trim, is_comment,
  separator, clean_key, clean_value, key_value_at, parse_trimmed, parse_key_value,
}

-- "text"
abbrev pub quoted : Bytes → Bytes
quoted s = b'"' ∷ s ++ b'"' ∷ []

-- key = value, "key": "value", and key: value
abbrev pub written : ConfigParser → Bytes → Bytes → Bytes
written ini_config_parser key value = key ++ b' ' ∷ b'=' ∷ b' ' ∷ value
written json_config_parser key value = quoted key ++ (b':' ∷ b' ' ∷ (quoted value ++ (b',' ∷ [])))
written yaml_config_parser key value = key ++ b':' ∷ b' ' ∷ value

-- What a key and a value must be for a line of the format.
abbrev pub IsUnquoted : ConfigParser → Bytes → Bytes → Type 0
IsUnquoted parser key value =
    (is_empty key ≡ false)
    × (is_comment parser key ≡ false)
    × (is_white (front key) ≡ false)
    × (trim key ≡ key)
    × (trim value ≡ value)
    × Avoids (separator parser) key

abbrev pub IsWritable : ConfigParser → Bytes → Bytes → Type 0
IsWritable ini_config_parser key value = IsUnquoted ini_config_parser key value
IsWritable json_config_parser key value = Avoids b':' key
IsWritable yaml_config_parser key value = IsUnquoted yaml_config_parser key value

pub is_comment-front :
    (parser : ConfigParser) (a : ℕ) (s t : Bytes)
    → is_comment parser (a ∷ s) ≡ is_comment parser (a ∷ t)
unfolding is_comment
is_comment-front ini_config_parser a s t = refl
is_comment-front json_config_parser a s t = refl
is_comment-front yaml_config_parser a s t = refl

separator-unwhite : (parser : ConfigParser) → is_white (separator parser) ≡ false
unfolding separator
separator-unwhite ini_config_parser = refl
separator-unwhite json_config_parser = refl
separator-unwhite yaml_config_parser = refl

-- A line is cut at its first separator, and white space around the parts does not matter.
pub parse_trimmed-cut :
    (parser : ConfigParser) (a : ℕ) (k rest : Bytes) (c : NtpConfig)
    → is_comment parser (a ∷ k) ≡ false
    → is_white a ≡ false
    → Avoids (separator parser) (a ∷ k)
    → parse_trimmed parser (trim (a ∷ k ++ separator parser ∷ rest)) c
      ≡ (parse_key_value (clean_key parser (trim (a ∷ k))) (clean_value parser (trim rest)) c).0
unfolding parse_trimmed key_value_at trim strip
parse_trimmed-cut parser a k rest c shown unwhite avoids =
    ap (λ l. parse_trimmed parser l c) trimmed
    ∙ if-false (is_comment parser line) _ _ (is_comment-front parser a _ k ∙ shown)
    ∙ ap (λ r. key_value_at parser r line c)
        (find-append (separator parser) (a ∷ k) back_part avoids)
    ∙ ap
        (λ r.
          (parse_key_value (clean_key parser (trim r))
            (clean_value parser (trim (drop (length (a ∷ k) + 1) line))) c).0)
        (take-length_append (a ∷ k) (separator parser ∷ back_part))
    ∙ ap
        (λ r. (parse_key_value (clean_key parser (trim (a ∷ k))) (clean_value parser (trim r)) c).0)
        (drop-length_append (a ∷ k) back_part (separator parser))
    ∙ ap (λ r. (parse_key_value (clean_key parser (trim (a ∷ k))) (clean_value parser r) c).0)
        (strip-drop_back is_white rest)
  where
    back_part : Bytes
    back_part = drop_back is_white rest

    line : Bytes
    line = a ∷ k ++ separator parser ∷ back_part

    trimmed : trim (a ∷ k ++ separator parser ∷ rest) ≡ line
    trimmed =
        ap (drop_back is_white) (drop_front-kept is_white a (k ++ separator parser ∷ rest) unwhite)
        ∙ drop_back-append is_white (a ∷ k) rest (separator parser) (separator-unwhite parser)
