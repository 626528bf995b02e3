-- ===== src/Config/Runs.antt =====
-- Runs of the configuration's checks on the defaults.
use simple_ntpd.Common.{◌≡◌, ◌↔◌, refl, true, [], ◌∷◌}
use simple_ntpd.Config.{set_defaults}
use simple_ntpd.Config.Validate.{
  stratum_range, authentication_key_missing, run_checks, validate_detailed, validate,
}
use simple_ntpd.Config.Validate.Laws.{IsUsable, validate_iff}

defaults_pass : validate set_defaults ≡ true
unfolding validate validate_detailed run_checks set_defaults
defaults_pass = refl

errors_run :
    validate_detailed (record set_defaults { stratum = 16; enable_authentication = true })
    ≡ stratum_range ∷ authentication_key_missing ∷ []
unfolding validate_detailed run_checks set_defaults
errors_run = refl

validate_iff_example : (validate set_defaults ≡ true) ↔ IsUsable set_defaults
validate_iff_example = validate_iff set_defaults
