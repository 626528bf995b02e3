-- ===== src/Config/Ranges.antt =====
-- The readers of src/simple-ntpd/config/config.cpp keep the ranges.
use simple_ntpd.Common.{
  ℕ, ◌+◌, ◌-◌, ◌%◌, ◌^◌, ◌||◌, Option, none, some, List, [], ◌∷◌, ◌==◌, if-both, length, take, drop,
}
use simple_ntpd.Common.Text.{Bytes, codes, equal, find, split_on, strip, is_blank, stoi, stoull}
use simple_ntpd.Config.{NtpConfig}
use simple_ntpd.Config.Settings.{
  Setting, text, flag, port, stratum_value, level_value, auth_method, selection, signed, list,
  count, bounded,
}
use simple_ntpd.Config.Options.{CliSetting, plain, size, key_list, degradation}
use simple_ntpd.Config.CommandLine.{
  is_true, read_list, on_number, perform_plain, keep_key, split_key, read_keys,
  parse_authentication_key_spec, perform, perform_found, parse_command_line_arg, split_argument,
  parse_argument, parse_arguments,
}
use simple_ntpd.Config.File.{
  is_ignored, is_section, assign_at, parse_assignment, parse_line, parse_lines, parse_config_file,
}
use simple_ntpd.Config.Limits.{
  IsWithinLimits, set_text-IsWithinLimits, set_flag-IsWithinLimits, set_signed-IsWithinLimits,
  set_count-IsWithinLimits, set_list-IsWithinLimits, set_port-IsWithinLimits,
  set_stratum-IsWithinLimits, set_level-IsWithinLimits, set_within-IsWithinLimits,
}

on_number-IsWithinLimits {ℓ} :
    {A : Type ℓ} (n : Option A) (assign : A → NtpConfig → NtpConfig) (c : NtpConfig)
    → ((a : A) → IsWithinLimits (assign a c))
    → IsWithinLimits c
    → IsWithinLimits (on_number n assign c).0
unfolding on_number
on_number-IsWithinLimits none assign c keeps h = h
on_number-IsWithinLimits (some n) assign c keeps h = keeps n

perform_plain-IsWithinLimits :
    (s : Setting) (v : Bytes) (c : NtpConfig)
    → IsWithinLimits c
    → IsWithinLimits (perform_plain s v c).0
unfolding perform_plain
perform_plain-IsWithinLimits (text f) v c h = set_text-IsWithinLimits c h f v
perform_plain-IsWithinLimits (flag f) v c h = set_flag-IsWithinLimits c h f (is_true v)
perform_plain-IsWithinLimits port v c h =
    on_number-IsWithinLimits (stoi v) _ c (set_port-IsWithinLimits c h) h
perform_plain-IsWithinLimits stratum_value v c h =
    on_number-IsWithinLimits (stoi v) _ c (set_stratum-IsWithinLimits c h) h
perform_plain-IsWithinLimits level_value v c h =
    on_number-IsWithinLimits (stoi v) _ c (set_level-IsWithinLimits c h) h
perform_plain-IsWithinLimits auth_method v c h = h
perform_plain-IsWithinLimits selection v c h = h
perform_plain-IsWithinLimits (signed f) v c h =
    on_number-IsWithinLimits (stoi v) _ c (set_signed-IsWithinLimits c h f) h
perform_plain-IsWithinLimits (list f) v c h = set_list-IsWithinLimits c h f (read_list v)
perform_plain-IsWithinLimits (count f) v c h =
    on_number-IsWithinLimits (stoull v) _ c (λ n. set_count-IsWithinLimits c h f (n % 2 ^ 32)) h
perform_plain-IsWithinLimits (bounded f) v c h =
    on_number-IsWithinLimits (stoull v) _ c (set_within-IsWithinLimits c h f) h

keep_key-IsWithinLimits :
    (id : Option ℕ) (value : Bytes) (c : NtpConfig)
    → IsWithinLimits c
    → IsWithinLimits (keep_key id value c)
unfolding keep_key
keep_key-IsWithinLimits none value c h = h
keep_key-IsWithinLimits (some id) value c h = h

split_key-IsWithinLimits :
    (colon : Option ℕ) (spec : Bytes) (c : NtpConfig)
    → IsWithinLimits c
    → IsWithinLimits (split_key colon spec c)
unfolding split_key
split_key-IsWithinLimits none spec c h = h
split_key-IsWithinLimits (some colon) spec c h =
    if-both IsWithinLimits (colon == 0 || colon == length spec - 1) c _ h
      (keep_key-IsWithinLimits (stoull (take colon spec)) (drop (colon + 1) spec) c h)

read_keys-IsWithinLimits :
    (specs : List Bytes) (c : NtpConfig) → IsWithinLimits c → IsWithinLimits (read_keys specs c)
unfolding read_keys parse_authentication_key_spec
read_keys-IsWithinLimits [] c h = h
read_keys-IsWithinLimits (spec ∷ specs) c h =
    read_keys-IsWithinLimits specs _ (split_key-IsWithinLimits (find b':' spec) spec c h)

perform_found-IsWithinLimits :
    (s : Option CliSetting) (v : Bytes) (c : NtpConfig)
    → IsWithinLimits c
    → IsWithinLimits (perform_found s v c).0
unfolding perform_found perform
perform_found-IsWithinLimits none v c h = h
perform_found-IsWithinLimits (some (plain s)) v c h = perform_plain-IsWithinLimits s v c h
perform_found-IsWithinLimits (some size) v c h = on_number-IsWithinLimits (stoull v) _ c (λ n. h) h
perform_found-IsWithinLimits (some key_list) v c h = read_keys-IsWithinLimits (read_list v) _ h
perform_found-IsWithinLimits (some degradation) v c h = h

assign_at-IsWithinLimits :
    (pos : Option ℕ) (line : Bytes) (c : NtpConfig)
    → IsWithinLimits c
    → IsWithinLimits (assign_at pos line c)
unfolding assign_at parse_command_line_arg
assign_at-IsWithinLimits none line c h = h
assign_at-IsWithinLimits (some pos) line c h = perform_found-IsWithinLimits _ _ c h

parse_line-IsWithinLimits :
    (line : Bytes) (c : NtpConfig) → IsWithinLimits c → IsWithinLimits (parse_line line c)
unfolding parse_line parse_assignment
parse_line-IsWithinLimits line c h =
    let stripped : Bytes = strip is_blank line in
    if-both IsWithinLimits (is_ignored line) c _ h (
      if-both IsWithinLimits (is_section stripped) c _ h
        (assign_at-IsWithinLimits (find b'=' stripped) stripped c h))

parse_lines-IsWithinLimits :
    (lines : List Bytes) (c : NtpConfig) → IsWithinLimits c → IsWithinLimits (parse_lines lines c)
unfolding parse_lines
parse_lines-IsWithinLimits [] c h = h
parse_lines-IsWithinLimits (line ∷ lines) c h =
    parse_lines-IsWithinLimits lines _ (parse_line-IsWithinLimits line c h)

split_argument-IsWithinLimits :
    (pos : Option ℕ) (arg : Bytes) (c : NtpConfig)
    → IsWithinLimits c
    → IsWithinLimits (split_argument pos arg c)
unfolding split_argument parse_command_line_arg
split_argument-IsWithinLimits none arg c h = h
split_argument-IsWithinLimits (some pos) arg c h = perform_found-IsWithinLimits _ _ c h

parse_arguments-IsWithinLimits :
    (args : List Bytes) (c : NtpConfig) → IsWithinLimits c → IsWithinLimits (parse_arguments args c)
unfolding parse_arguments parse_argument
parse_arguments-IsWithinLimits [] c h = h
parse_arguments-IsWithinLimits (arg ∷ args) c h = parse_arguments-IsWithinLimits args _ (
    if-both IsWithinLimits (equal (take 2 arg) (codes "--")) _ c
      (split_argument-IsWithinLimits (find b'=' arg) arg c h) h)

parse_config_file-IsWithinLimits :
    (file : Option Bytes) (c : NtpConfig)
    → IsWithinLimits c
    → IsWithinLimits (parse_config_file file c).0
unfolding parse_config_file
parse_config_file-IsWithinLimits none c h = h
parse_config_file-IsWithinLimits (some contents) c h =
    parse_lines-IsWithinLimits (split_on 10 contents) c h

-- A configuration file and then command-line arguments, whatever they hold, keep the stratum at
-- most 15, the worker threads within 1 to 64, the packet size within 48 to 8192 and the port
-- below 2 ^ 16, if these hold before.
pub readers-IsWithinLimits :
    (file : Option Bytes) (args : List Bytes) (c : NtpConfig)
    → IsWithinLimits c
    → IsWithinLimits (parse_arguments args (parse_config_file file c).0)
readers-IsWithinLimits file args c h =
    parse_arguments-IsWithinLimits args _ (parse_config_file-IsWithinLimits file c h)
