-- ===== src/Logger/OldLogs.antt =====
-- The names of the old logs (src/simple-ntpd/utils/logger.cpp).
use simple_ntpd.Common.{
  ℕ, ◌+◌, ◌^◌, ◌<◌, ◌≡◌, ◌≢◌, refl, ap, sym, ◌∙◌, arith, ◌∷◌, ◌++◌, length, length-append, drop,
}
use simple_ntpd.Common.Text.{Bytes, to_string}
use simple_ntpd.Common.Text.Digits.{value_of, value_of-to_string}
use simple_ntpd.Common.Text.Laws.{drop-length_append}
use simple_ntpd.Logger.{old_log}

old_log-text : (name : Bytes) (i : ℕ) → old_log name i ≡ name ++ b'.' ∷ to_string i
unfolding old_log
old_log-text name i = refl

number_of : (name : Bytes) (i : ℕ) → drop (length name + 1) (old_log name i) ≡ to_string i
number_of name i =
    ap (drop (length name + 1)) (old_log-text name i) ∙ drop-length_append name (to_string i) b'.'

-- The old logs of one file have different names.
pub old_log-injective :
    (name : Bytes) (i j : ℕ) → i < 2 ^ 64 → j < 2 ^ 64 → old_log name i ≡ old_log name j → i ≡ j
old_log-injective name i j hi hj same =
    sym (value_of-to_string i hi)
    ∙ ap (value_of 0) (sym (number_of name i) ∙ ap (drop (length name + 1)) same ∙ number_of name j)
    ∙ value_of-to_string j hj

-- And none has the log file's name.
pub old_log-other : (name : Bytes) (i : ℕ) → old_log name i ≢ name
old_log-other name i same =
    let longer : length (name ++ b'.' ∷ to_string i) ≡ length name =
      ap length (sym (old_log-text name i) ∙ same) in
    omega (arith, longer, length-append name (b'.' ∷ to_string i))
