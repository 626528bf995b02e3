-- ===== src/Config/File/Spaces.antt =====
-- What `parseConfigFile` (src/simple-ntpd/config/config.cpp) makes of blanks before the `=`.
use simple_ntpd.Common.{
  ℕ, ◌+◌, ◌≡◌, refl, ap, sym, ◌∙◌, arith, Bool, true, false, ◌||◌, none, List, [], ◌∷◌, ◌++◌, map,
  if-true, if-both, if-false, Bool-cases, or_false, inl, inr, length, drop,
}
use simple_ntpd.Common.Text.{
  Bytes, equal, equal_iff, find, lower, to_lower, drop_front, drop_back, strip, is_blank,
}
use simple_ntpd.Common.Text.Laws.{
  Avoids, append-Avoids, take-length_append, append_assoc, find-append, drop_back-append,
}
use simple_ntpd.Config.{NtpConfig}
use simple_ntpd.Config.Settings.{is_named, find_setting}
use simple_ntpd.Config.Options.{CliSetting, options}
use simple_ntpd.Config.CommandLine.{perform_found, parse_command_line_arg}
use simple_ntpd.Config.File.{
  without_quotes, is_ignored, is_section, assign_at, parse_assignment, parse_line,
}

-- The last byte, or d.
abbrev last_or : ℕ → Bytes → ℕ
last_or d [] = d
last_or d (b ∷ s) = last_or b s

-- Empty, or with a blank at the end.
abbrev is_loose : Bytes → Bool
is_loose s = is_blank (last_or 32 s)

any_loose : List Bytes → Bool
any_loose [] = false
any_loose (name ∷ names) = is_loose name || any_loose names

rows_loose : List (List Bytes × CliSetting) → Bool
unfolding any_loose
rows_loose [] = false
rows_loose ((names, s) ∷ rows) = any_loose names || rows_loose rows

options_tight : rows_loose options ≡ false
unfolding rows_loose options
options_tight = refl

named-tight :
    (key : Bytes) (names : List Bytes)
    → is_loose key ≡ true
    → any_loose names ≡ false
    → is_named key names ≡ false
unfolding is_named any_loose
named-tight key [] loose tight = refl
named-tight key (name ∷ names) loose tight =
    let (this, others) = or_false (is_loose name) (any_loose names) tight in
    elim (Bool-cases (equal key name)) [
      | inl same ↦
          let clash : true ≡ false = sym loose ∙ ap is_loose ((equal_iff key name).0 same) ∙ this in
          cc
      | inr other ↦ ap (λ b. b || is_named key names) other ∙ named-tight key names loose others
    ]

loose_unknown :
    (key : Bytes) (rows : List (List Bytes × CliSetting))
    → is_loose key ≡ true
    → rows_loose rows ≡ false
    → find_setting key rows ≡ none
unfolding find_setting rows_loose
loose_unknown key [] loose tight = refl
loose_unknown key ((names, s) ∷ rows) loose tight =
    let (this, others) = or_false (any_loose names) (rows_loose rows) tight in
    if-false (is_named key names) _ _ (named-tight key names loose this)
    ∙ loose_unknown key rows loose others

last_or-lower : (d : ℕ) (s : Bytes) → last_or (to_lower d) (map to_lower s) ≡ to_lower (last_or d s)
last_or-lower d [] = refl
last_or-lower d (b ∷ s) = last_or-lower b s

blank-to_lower : (b : ℕ) → is_blank b ≡ true → is_blank (to_lower b) ≡ true
unfolding to_lower
blank-to_lower b h = ground arith

last_or-append : (d b : ℕ) (s : Bytes) → last_or d (s ++ b ∷ []) ≡ b
last_or-append d b [] = refl
last_or-append d b (x ∷ s) = last_or-append x b s

-- The blanks in front of the `=` stay behind the key, or the key is empty.
loose_front :
    (key rest : Bytes) (b : ℕ)
    → is_blank b ≡ true
    → Avoids b'=' key
    → (k : Bytes) × (drop_front is_blank (key ++ b ∷ b'=' ∷ rest) ≡ k ++ b'=' ∷ rest)
      × Avoids b'=' k
      × (is_loose k ≡ true)
unfolding drop_front
loose_front [] rest b blank avoids = ([], if-true (is_blank b) _ _ blank, tt, refl)
loose_front (x ∷ key) rest b blank (here, there) = elim (Bool-cases (is_blank x)) [
  | inl dropped ↦
      let (k, same, avoids, loose) = loose_front key rest b blank there in
      (k, if-true (is_blank x) _ _ dropped ∙ same, avoids, loose)
  | inr kept ↦ (
    x ∷ key ++ b ∷ [],
    if-false (is_blank x) _ _ kept
        ∙ ap (λ s. x ∷ s) (sym (append_assoc key (b ∷ []) (b'=' ∷ rest))),
    append-Avoids b'=' (x ∷ key) (b ∷ []) (here, there) (ground arith, tt),
    ap is_blank (last_or-append x b key) ∙ blank,
  )
]

loose_key :
    (key value : Bytes) (c : NtpConfig)
    → is_loose key ≡ true
    → (parse_command_line_arg key value c).0 ≡ c
unfolding parse_command_line_arg perform_found lower to_lower
loose_key key value c loose =
    ap (λ r. (perform_found r value c).0)
      (loose_unknown (lower key) options
        (ap is_blank (last_or-lower 32 key) ∙ blank-to_lower (last_or 32 key) loose) options_tight)

loose_line :
    (k rest : Bytes) (c : NtpConfig)
    → Avoids b'=' k
    → is_loose k ≡ true
    → parse_assignment (k ++ b'=' ∷ rest) c ≡ c
unfolding parse_assignment assign_at
loose_line k rest c avoids loose =
    let line : Bytes = k ++ b'=' ∷ rest in
    let value : Bytes = without_quotes (drop (length k + 1) line) in
    if-both (λ r. r ≡ c) (is_section line) c (assign_at (find b'=' line) line c) refl
      (ap (λ r. assign_at r line c) (find-append b'=' k rest avoids)
        ∙ ap (λ key. (parse_command_line_arg key value c).0) (take-length_append k (b'=' ∷ rest))
        ∙ loose_key k value c loose)

-- A line of a configuration file with a space or tab right before its first equals sign changes
-- nothing.
parse_line-spaced :
    (key rest : Bytes) (b : ℕ) (c : NtpConfig)
    → is_blank b ≡ true
    → Avoids b'=' key
    → parse_line (key ++ b ∷ b'=' ∷ rest) c ≡ c
unfolding parse_line parse_assignment assign_at strip
parse_line-spaced key rest b c blank avoids =
    let (k, same, avoids_k, loose) = loose_front key rest b blank avoids in
    let line : Bytes = k ++ b'=' ∷ drop_back is_blank rest in
    let stripped : strip is_blank (key ++ b ∷ b'=' ∷ rest) ≡ line =
      ap (drop_back is_blank) same ∙ drop_back-append is_blank k rest b'=' refl in
    if-both (λ r. r ≡ c) (is_ignored (key ++ b ∷ b'=' ∷ rest)) c _ refl
      (ap (λ l. parse_assignment l c) stripped
        ∙ loose_line k (drop_back is_blank rest) c avoids_k loose)
