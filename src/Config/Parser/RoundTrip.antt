-- ===== src/Config/Parser/RoundTrip.antt =====
-- The parsers of src/simple-ntpd/config/parser.cpp on files of lines in their formats.
use simple_ntpd.Common.{
  ◌-◌, ◌≡◌, refl, ap, sym, ◌∙◌, arith, true, false, ◌&&◌, List, [], ◌∷◌, ◌++◌, All, ◌==◌, if-true,
  if-false, length, length-append, take, leb,
}
use simple_ntpd.Common.Text.{Bytes, split_on, strip, drop_front, is_white}
use simple_ntpd.Common.Text.Laws.{
  Avoids, append-Avoids, take-length_append, and_false, append_assoc, split_on-append, strip-kept,
  strip-blank,
}
use simple_ntpd.Config.{NtpConfig}
use simple_ntpd.Config.File.{is_quoted, back, without_quotes}
use simple_ntpd.Config.File.Lines.{back-append, without_quotes-quoted}
use simple_ntpd.Config.Parser.{
  ConfigParser, ini_config_parser, json_config_parser, yaml_config_parser, trim, is_comment,
  separator, without_comma, clean_key, clean_value, parse_trimmed, parse_rows, parse_string,
  parse_key_value,
}
use simple_ntpd.Config.Parser.Lines.{
  quoted, written, IsUnquoted, IsWritable, is_comment-front, parse_trimmed-cut,
}

-- Both parts of an assignment may be replaced by equal ones.
same_parts :
    (k l v w : Bytes) (c : NtpConfig)
    → k ≡ l
    → v ≡ w
    → (parse_key_value k v c).0 ≡ (parse_key_value l w c).0
same_parts k l v w c e d =
    ap (λ x. (parse_key_value x v c).0) e ∙ ap (λ x. (parse_key_value l x c).0) d

trim-spaced : (value : Bytes) → trim value ≡ value → trim (b' ' ∷ value) ≡ value
unfolding trim strip drop_front
trim-spaced value h = h

ini_line :
    (key value : Bytes) (c : NtpConfig)
    → IsUnquoted ini_config_parser key value
    → parse_trimmed ini_config_parser (trim (written ini_config_parser key value)) c
      ≡ (parse_key_value key value c).0
unfolding separator clean_key clean_value trim
ini_line [] value c (some_key, _, _, _, _, _) = cc
ini_line (a ∷ k) value c (_, shown, unwhite, trimmed, trimmed_value, avoids) =
    ap (λ l. parse_trimmed ini_config_parser (trim (a ∷ l)) c)
      (sym (append_assoc k (b' ' ∷ []) (b'=' ∷ b' ' ∷ value)))
    ∙ parse_trimmed-cut ini_config_parser a (k ++ b' ' ∷ []) (b' ' ∷ value) c
        (is_comment-front ini_config_parser a _ k ∙ shown) unwhite
        (append-Avoids b'=' (a ∷ k) (b' ' ∷ []) avoids (refl, tt))
    ∙ same_parts _ (a ∷ k) _ value c (strip-blank is_white (a ∷ k) b' ' refl ∙ trimmed)
        (trim-spaced value trimmed_value)

yaml_line :
    (key value : Bytes) (c : NtpConfig)
    → IsUnquoted yaml_config_parser key value
    → parse_trimmed yaml_config_parser (trim (written yaml_config_parser key value)) c
      ≡ (parse_key_value key value c).0
unfolding separator clean_key clean_value
yaml_line [] value c (some_key, _, _, _, _, _) = cc
yaml_line (a ∷ k) value c (_, shown, unwhite, trimmed, trimmed_value, avoids) =
    parse_trimmed-cut yaml_config_parser a k (b' ' ∷ value) c shown unwhite avoids
    ∙ same_parts _ (a ∷ k) _ value c trimmed (trim-spaced value trimmed_value)

without_comma-append : (s : Bytes) → without_comma (s ++ b',' ∷ []) ≡ s
unfolding without_comma
without_comma-append s =
    if-true (leb 1 (length line) && back line == b',') (take (length line - 1) line) line ends
    ∙ ap (λ n. take n line) shorter
    ∙ take-length_append s (b',' ∷ [])
  where
    line : Bytes
    line = s ++ b',' ∷ []

    shorter : length line - 1 ≡ length s
    shorter = omega (arith, length-append s (b',' ∷ []))

    some_byte : leb 1 (length line) ≡ true
    some_byte = ground (arith, length-append s (b',' ∷ []))

    ends : (leb 1 (length line) && back line == b',') ≡ true
    ends = rw (some_byte, back-append s b',') refl

json_value : (value : Bytes) → clean_value json_config_parser (quoted value ++ (b',' ∷ [])) ≡ value
unfolding clean_value without_quotes
json_value value =
    ap (λ s. without_quotes (without_comma s)) (if-false (is_quoted line) _ line unquoted)
    ∙ ap without_quotes (without_comma-append (quoted value))
    ∙ without_quotes-quoted value
  where
    line : Bytes
    line = quoted value ++ (b',' ∷ [])

    unquoted : is_quoted line ≡ false
    unquoted =
        ap (λ b. leb 2 (length line) && b == b'"') (back-append (quoted value) b',')
        ∙ and_false (leb 2 (length line))

json_line :
    (key value : Bytes) (c : NtpConfig)
    → Avoids b':' key
    → parse_trimmed json_config_parser (trim (written json_config_parser key value)) c
      ≡ (parse_key_value key value c).0
unfolding separator clean_key is_comment trim strip drop_front
json_line key value c avoids =
    parse_trimmed-cut json_config_parser b'"' (key ++ b'"' ∷ [])
      (b' ' ∷ (quoted value ++ (b',' ∷ []))) c refl refl
      (append-Avoids b':' (b'"' ∷ key) (b'"' ∷ []) (refl, avoids) (refl, tt))
    ∙ same_parts _ key _ value c
        (ap (clean_key json_config_parser) (strip-kept is_white b'"' b'"' key refl refl)
          ∙ without_quotes-quoted key)
        (ap (clean_value json_config_parser)
            (strip-kept is_white b'"' b',' (value ++ (b'"' ∷ [])) refl refl)
          ∙ json_value value)

line_of :
    (parser : ConfigParser) (key value : Bytes) (c : NtpConfig)
    → IsWritable parser key value
    → parse_trimmed parser (trim (written parser key value)) c ≡ (parse_key_value key value c).0
line_of ini_config_parser key value c ok = ini_line key value c ok
line_of json_config_parser key value c ok = json_line key value c ok
line_of yaml_config_parser key value c ok = yaml_line key value c ok

-- A file of such lines.
unfoldable pub written_all : ConfigParser → List (Bytes × Bytes) → Bytes
written_all parser [] = []
written_all parser ((key, value) ∷ more) = written parser key value ++ 10 ∷ written_all parser more

-- The assignments one after the other.
unfoldable pub assign_rows : List (Bytes × Bytes) → NtpConfig → NtpConfig
assign_rows [] c = c
assign_rows ((key, value) ∷ more) c = assign_rows more (parse_key_value key value c).0

abbrev pub IsRow : ConfigParser → Bytes × Bytes → Type 0
IsRow parser (key, value) = IsWritable parser key value × (Avoids 10 key × Avoids 10 value)

written-Avoids :
    (parser : ConfigParser) (key value : Bytes)
    → Avoids 10 key
    → Avoids 10 value
    → Avoids 10 (written parser key value)
written-Avoids ini_config_parser key value h g =
    append-Avoids 10 key (b' ' ∷ b'=' ∷ b' ' ∷ value) h (refl, (refl, (refl, g)))
written-Avoids json_config_parser key value h g =
    append-Avoids 10 (quoted key) (b':' ∷ b' ' ∷ (quoted value ++ (b',' ∷ [])))
      (refl, append-Avoids 10 key (b'"' ∷ []) h (refl, tt))
      (
        refl,
        (
          refl,
          append-Avoids 10 (quoted value) (b',' ∷ [])
              (refl, append-Avoids 10 value (b'"' ∷ []) g (refl, tt)) (refl, tt),
        ),
      )
written-Avoids yaml_config_parser key value h g =
    append-Avoids 10 key (b':' ∷ b' ' ∷ value) h (refl, (refl, g))

-- Each parser reads a file of lines in its format, key = value, or "key": "value", with a comma
-- at the end of each line, or key: value, as these assignments in their order, if no key or value
-- holds a line break and no key the separator, and for the formats without quotes keys are not
-- empty and begin no comment and neither keys nor values have white space around them.
pub parse_string-written :
    (parser : ConfigParser) (rows : List (Bytes × Bytes)) (c : NtpConfig)
    → All (IsRow parser) rows
    → parse_string parser (written_all parser rows) c ≡ assign_rows rows c
unfolding parse_string parse_rows written_all assign_rows split_on
parse_string-written parser [] c ok = refl
parse_string-written parser ((key, value) ∷ more) c ((ok, (h, g)), rest) =
    ap (λ lines. parse_rows parser lines c)
      (split_on-append 10 (written parser key value) (written_all parser more)
        (written-Avoids parser key value h g))
    ∙ ap (parse_rows parser (split_on 10 (written_all parser more))) (line_of parser key value c ok)
    ∙ parse_string-written parser more (parse_key_value key value c).0 rest
