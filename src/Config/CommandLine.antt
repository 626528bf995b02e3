-- ===== src/Config/CommandLine.antt =====
-- `parseCommandLineArg`, `parseAuthenticationKeySpec` and the arguments of `loadFromCommandLine`
-- (src/simple-ntpd/config/config.cpp).
use simple_ntpd.Common.{
  ℕ, ◌+◌, ◌-◌, ◌%◌, ◌^◌, Bool, true, false, ◌||◌, Option, none, some, List, [], ◌∷◌, map, ◌==◌,
  if◌then◌else◌, length, take, drop,
}
use simple_ntpd.Common.Map.{insert, nat_eq}
use simple_ntpd.Common.Text.{
  Bytes, codes, equal, find, lower, split_on, strip, is_blank, stoi, stoull,
}
use simple_ntpd.Config.{NtpConfig, DegradationMode}
use simple_ntpd.Config.Fields.{set_text, set_flag, set_signed, set_count, set_list}
use simple_ntpd.Config.Settings.{
  Setting, text, flag, port, stratum_value, level_value, auth_method, selection, signed, list,
  count, bounded, find_setting, set_port, set_stratum, set_level, set_within, algorithm_of,
  selection_of, nonempty,
}
use simple_ntpd.Config.Options.{CliSetting, plain, size, key_list, degradation, options}

-- value == "true" || value == "1" || value == "yes"
abbrev pub is_true : Bytes → Bool
is_true value = equal value (codes "true") || (equal value (codes "1") || equal value (codes "yes"))

-- The items between the commas, without the blanks around them.
unfoldable pub read_list : Bytes → List Bytes
read_list value = nonempty (map (strip is_blank) (split_on b',' value))

-- A conversion that throws changes nothing and yields false.
unfoldable pub on_number {ℓ} :
    {A : Type ℓ} → Option A → (A → NtpConfig → NtpConfig) → NtpConfig → NtpConfig × Bool
on_number none assign c = (c, false)
on_number (some n) assign c = (assign n c, true)

unfoldable pub perform_plain : Setting → Bytes → NtpConfig → NtpConfig × Bool
unfolding on_number read_list
perform_plain (text f) v c = (set_text f v c, true)
perform_plain (flag f) v c = (set_flag f (is_true v) c, true)
perform_plain port v c = on_number (stoi v) set_port c
perform_plain stratum_value v c = on_number (stoi v) set_stratum c
perform_plain level_value v c = on_number (stoi v) set_level c
perform_plain auth_method v c =
    (record c { authentication_algorithm = algorithm_of (lower v) }, true)
perform_plain selection v c =
    (record c { upstream_selection_algorithm = selection_of (lower v) }, true)
perform_plain (signed f) v c = on_number (stoi v) (set_signed f) c
perform_plain (list f) v c = (set_list f (read_list v) c, true)
perform_plain (count f) v c = on_number (stoull v) (λ n. set_count f (n % 2 ^ 32)) c
perform_plain (bounded f) v c = on_number (stoull v) (set_within f) c

-- The map is a hash map; its order of iteration is open, and the one taken here is that of the
-- insertions. Only the first entry is ever read, where there is no `authentication_key`.
unfoldable pub keep_key : Option ℕ → Bytes → NtpConfig → NtpConfig
keep_key none value c = c
keep_key (some id) value c = record c {
  authentication_keys = insert (id % 2 ^ 32) value c.authentication_keys;
}

unfoldable pub split_key : Option ℕ → Bytes → NtpConfig → NtpConfig
unfolding keep_key
split_key none spec c = c
split_key (some colon) spec c =
    if colon == 0 || colon == length spec - 1
    then c
    else keep_key (stoull (take colon spec)) (drop (colon + 1) spec) c

-- `id:key`, with neither part empty and a number for the first
unfoldable pub parse_authentication_key_spec : Bytes → NtpConfig → NtpConfig
unfolding split_key
parse_authentication_key_spec spec c = split_key (find b':' spec) spec c

unfoldable pub read_keys : List Bytes → NtpConfig → NtpConfig
unfolding parse_authentication_key_spec
read_keys [] c = c
read_keys (spec ∷ specs) c = read_keys specs (parse_authentication_key_spec spec c)

unfoldable pub degradation_of : Bytes → DegradationMode
degradation_of mode =
    if equal mode (codes "reduced")
    then DegradationMode.reduced_functionality
    else if equal mode (codes "prioritize_trusted")
    then DegradationMode.prioritize_trusted
    else DegradationMode.normal

unfoldable pub perform : CliSetting → Bytes → NtpConfig → NtpConfig × Bool
unfolding perform_plain read_keys
perform (plain s) v c = perform_plain s v c
perform size v c = on_number (stoull v) (λ n c. record c { log_max_size_bytes = n }) c
perform key_list v c = (read_keys (read_list v) (record c { authentication_keys = [] }), true)
perform degradation v c = (record c { degradation_mode = degradation_of (lower v) }, true)

-- An unknown key changes nothing and yields true.
unfoldable pub perform_found : Option CliSetting → Bytes → NtpConfig → NtpConfig × Bool
unfolding perform
perform_found none v c = (c, true)
perform_found (some s) v c = perform s v c

unfoldable pub parse_command_line_arg : Bytes → Bytes → NtpConfig → NtpConfig × Bool
unfolding perform_found options
parse_command_line_arg key value c = perform_found (find_setting (lower key) options) value c

unfoldable pub split_argument : Option ℕ → Bytes → NtpConfig → NtpConfig
unfolding parse_command_line_arg
split_argument none arg c = c
split_argument (some pos) arg c =
    (parse_command_line_arg (take (pos - 2) (drop 2 arg)) (drop (pos + 1) arg) c).0

-- `--key=value`; what the assignment yields is not looked at.
unfoldable pub parse_argument : Bytes → NtpConfig → NtpConfig
unfolding split_argument
parse_argument arg c =
    if equal (take 2 arg) (codes "--") then split_argument (find b'=' arg) arg c else c

unfoldable pub parse_arguments : List Bytes → NtpConfig → NtpConfig
unfolding parse_argument
parse_arguments [] c = c
parse_arguments (arg ∷ args) c = parse_arguments args (parse_argument arg c)
