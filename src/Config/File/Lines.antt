-- ===== src/Config/File/Lines.antt =====
-- What `parseConfigFile` (src/simple-ntpd/config/config.cpp) makes of the lines of a file.
use simple_ntpd.Common.{
  ℕ, suc, ◌+◌, ◌-◌, ◌≡◌, refl, ap, ◌∙◌, arith, true, false, ◌&&◌, some, List, [], ◌∷◌, ◌++◌, All,
  ◌==◌, if-true, if-false, length, length-append, take, drop, get_or, leb,
}
use simple_ntpd.Common.Text.{Bytes, find, split_on, is_blank}
use simple_ntpd.Common.Text.Laws.{
  Avoids, append-Avoids, take-length_append, drop-length_append, get_or-last, append_assoc,
  find-append, split_on-append, strip-kept,
}
use simple_ntpd.Config.{NtpConfig}
use simple_ntpd.Config.CommandLine.{parse_command_line_arg}
use simple_ntpd.Config.File.{
  front, back, is_quoted, without_quotes, is_ignored, is_section, assign_at, parse_assignment,
  parse_line, parse_lines, parse_config_file,
}

-- The line key="value".
abbrev pub quoted_line : Bytes → Bytes → Bytes
quoted_line key value = (key ++ b'=' ∷ b'"' ∷ value) ++ b'"' ∷ []

-- A key that a line can begin with: not empty, no comment, no section, no blank in front, and
-- neither `=` nor a line break in it.
abbrev pub IsFileKey : Bytes → Type 0
IsFileKey key =
    (is_ignored key ≡ false)
    × (is_blank (front key) ≡ false)
    × ((front key == b'[') ≡ false)
    × Avoids b'=' key
    × Avoids 10 key

pub back-append : (s : Bytes) (b : ℕ) → back (s ++ b ∷ []) ≡ b
back-append s b = ap (λ i. get_or (s ++ b ∷ []) i 0) at_end ∙ get_or-last s b 0
  where
    at_end : length (s ++ b ∷ []) - 1 ≡ length s
    at_end = omega (arith, length-append s (b ∷ []))

pub without_quotes-quoted : (v : Bytes) → without_quotes (b'"' ∷ v ++ b'"' ∷ []) ≡ v
unfolding without_quotes
without_quotes-quoted v =
    if-true (is_quoted line) (take (length line - 2) (v ++ b'"' ∷ [])) line quoted
    ∙ ap (λ n. take n (v ++ b'"' ∷ [])) inside
    ∙ take-length_append v (b'"' ∷ [])
  where
    line : Bytes
    line = b'"' ∷ v ++ b'"' ∷ []

    long : length line ≡ suc (length v + 1)
    long = ap suc (length-append v (b'"' ∷ []))

    inside : length line - 2 ≡ length v
    inside = omega (arith, long)

    last : back line ≡ b'"'
    last = back-append (b'"' ∷ v) b'"'

    two : leb 2 (length line) ≡ true
    two = ground (arith, long)

    quoted : is_quoted line ≡ true
    quoted = rw (two, last) refl

pub parse_line-quoted :
    (key value : Bytes) (c : NtpConfig)
    → IsFileKey key
    → parse_line (quoted_line key value) c ≡ (parse_command_line_arg key value c).0
unfolding parse_line parse_assignment assign_at
parse_line-quoted [] value c ok = cc
parse_line-quoted (a ∷ k) value c (shown, unblank, no_section, no_equals, _) =
    if-false (is_ignored line) _ _ shown
    ∙ ap (λ l. parse_assignment l c)
        (strip-kept is_blank a b'"' (k ++ b'=' ∷ b'"' ∷ value) unblank refl)
    ∙ if-false (is_section line) _ _ (ap (λ b. b && back line == b']') no_section)
    ∙ ap (λ l. assign_at (find b'=' l) l c) (append_assoc key (b'=' ∷ b'"' ∷ value) (b'"' ∷ []))
    ∙ ap (λ r. assign_at r (key ++ b'=' ∷ rest) c) (find-append b'=' key rest no_equals)
    ∙ ap
        (λ r.
          (parse_command_line_arg r (without_quotes (drop (length key + 1) (key ++ b'=' ∷ rest)))
            c).0)
        (take-length_append key (b'=' ∷ rest))
    ∙ ap (λ r. (parse_command_line_arg key (without_quotes r) c).0)
        (drop-length_append key rest b'=')
    ∙ ap (λ r. (parse_command_line_arg key r c).0) (without_quotes-quoted value)
  where
    key : Bytes
    key = a ∷ k

    rest : Bytes
    rest = b'"' ∷ value ++ b'"' ∷ []

    line : Bytes
    line = quoted_line key value

-- A file of such lines.
unfoldable pub quoted_lines : List (Bytes × Bytes) → Bytes
quoted_lines [] = []
quoted_lines ((key, value) ∷ more) = quoted_line key value ++ 10 ∷ quoted_lines more

-- The assignments one after the other.
unfoldable pub assign_all : List (Bytes × Bytes) → NtpConfig → NtpConfig
assign_all [] c = c
assign_all ((key, value) ∷ more) c = assign_all more (parse_command_line_arg key value c).0

abbrev pub IsAssignment : Bytes × Bytes → Type 0
IsAssignment (key, value) = IsFileKey key × Avoids 10 value

parse_lines-quoted :
    (assignments : List (Bytes × Bytes)) (c : NtpConfig)
    → All IsAssignment assignments
    → parse_lines (split_on 10 (quoted_lines assignments)) c ≡ assign_all assignments c
unfolding parse_lines quoted_lines assign_all split_on
parse_lines-quoted [] c ok = refl
parse_lines-quoted ((key, value) ∷ more) c
      (((shown, unblank, no_section, no_equals, no_break), no_break_value), rest) =
    ap (λ lines. parse_lines lines c)
      (split_on-append 10 (quoted_line key value) (quoted_lines more) (
        append-Avoids 10 (key ++ b'=' ∷ b'"' ∷ value) (b'"' ∷ [])
          (append-Avoids 10 key (b'=' ∷ b'"' ∷ value) no_break (refl, (refl, no_break_value)))
          (refl, tt)))
    ∙ ap (parse_lines (split_on 10 (quoted_lines more)))
        (parse_line-quoted key value c (shown, unblank, no_section, no_equals, no_break))
    ∙ parse_lines-quoted more (parse_command_line_arg key value c).0 rest

-- A configuration file with one line key="value" for each assignment, with values that hold no
-- line break and keys that begin no comment or section or blank and hold no equals sign or line
-- break, is read as these assignments in their order.
pub parse_config_file-quoted_lines :
    (assignments : List (Bytes × Bytes)) (c : NtpConfig)
    → All IsAssignment assignments
    → parse_config_file (some (quoted_lines assignments)) c ≡ (assign_all assignments c, true)
unfolding parse_config_file
parse_config_file-quoted_lines assignments c ok =
    ap (λ r. (r, true)) (parse_lines-quoted assignments c ok)
