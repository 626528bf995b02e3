-- ===== src/Config/Factory/Detection.antt =====
-- The detection of a format by a file's name (src/simple-ntpd/config/parser.cpp).
use simple_ntpd.Common.{
  ℕ, ◌≡◌, refl, ap, ◌∙◌, none, some, [], ◌∷◌, ◌++◌, All, ◌==◌, ==_iff, if◌then◌else◌, if-true,
}
use simple_ntpd.Common.Text.{Bytes, codes, equal, lower, to_lower}
use simple_ntpd.Common.Text.Laws.{Avoids}
use simple_ntpd.Config.Parser.{
  ConfigParser, ini_config_parser, json_config_parser, yaml_config_parser,
}
use simple_ntpd.Config.Factory.{
  or_behind, after_last, format_of, format_behind, detect_format, create_parser,
  create_parser_from_file, get_supported_extensions,
}

after_last-Avoids : (d : ℕ) (s : Bytes) → Avoids d s → after_last d s ≡ none
unfolding after_last or_behind
after_last-Avoids d [] h = refl
after_last-Avoids d (b ∷ s) (here, there) = rw (after_last-Avoids d s there, here) refl

after_last-append : (d : ℕ) (s t : Bytes) → Avoids d t → after_last d (s ++ d ∷ t) ≡ some t
unfolding after_last or_behind
after_last-append d [] t h =
    ap (or_behind d d t) (after_last-Avoids d t h) ∙ if-true (d == d) _ _ ((==_iff d d).1 refl)
after_last-append d (b ∷ s) t h = ap (or_behind d b (s ++ d ∷ t)) (after_last-append d s t h)

-- The extension alone decides.
by_extension :
    (name extension : Bytes)
    → Avoids b'.' extension
    → create_parser_from_file (name ++ b'.' ∷ extension)
      ≡ create_parser (format_behind (some extension))
unfolding create_parser_from_file detect_format
by_extension name extension h =
    ap (λ r. create_parser (format_behind r)) (after_last-append b'.' name extension h)

-- For a file name that ends in a dot and an extension that a parser supports, the factory makes
-- that parser, except for cfg, for which it makes none.
create_parser_from_file-supported :
    (name : Bytes) (parser : ConfigParser)
    → All
        (λ extension.
          create_parser_from_file (name ++ b'.' ∷ extension)
          ≡ (if equal extension (codes "cfg") then none else some parser))
        (get_supported_extensions parser)
unfolding get_supported_extensions create_parser format_behind format_of equal lower to_lower
create_parser_from_file-supported name ini_config_parser = (
  by_extension name (codes "ini") (refl, (refl, (refl, tt))),
  (
    by_extension name (codes "conf") (refl, (refl, (refl, (refl, tt)))),
    (by_extension name (codes "cfg") (refl, (refl, (refl, tt))), tt),
  ),
)
create_parser_from_file-supported name json_config_parser =
    (by_extension name (codes "json") (refl, (refl, (refl, (refl, tt)))), tt)
create_parser_from_file-supported name yaml_config_parser = (
  by_extension name (codes "yml") (refl, (refl, (refl, tt))),
  (by_extension name (codes "yaml") (refl, (refl, (refl, (refl, tt)))), tt),
)
