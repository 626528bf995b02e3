-- ===== src/Config/Agreement.antt =====
-- Every key of `parseKeyValue` (src/simple-ntpd/config/parser.cpp) is a key of
-- `parseCommandLineArg` (src/simple-ntpd/config/config.cpp) and sets the same field there.
use simple_ntpd.Common.{
  ◌≡◌, refl, ap, some-value, append-All, true, ◌||◌, some, List, [], ◌∷◌, ◌++◌, All, if◌then◌else◌,
  if-true, Bool-cases, inl, inr, ◌∙◌, sym, subst,
}
use simple_ntpd.Common.Text.{Bytes, equal, equal_iff}
use simple_ntpd.Config.Settings.{Setting, is_named, find_setting}
use simple_ntpd.Config.Options.{plain, options}
use simple_ntpd.Config.Keys.{
  keys, network_keys, logging_keys, security_keys, tls_keys, performance_keys, reliability_keys,
  advanced_keys,
}

-- The chain of the command line finds the setting of the row under every name of the row.
abbrev pub IsOption : List Bytes × Setting → Type 0
IsOption (names, s) = All (λ name. find_setting name options ≡ some (plain s)) names

network_keys-IsOption : All IsOption network_keys
unfolding network_keys find_setting options equal
network_keys-IsOption = (
  (refl, (refl, tt)),
  (
    (refl, (refl, tt)),
    (
      (refl, (refl, tt)),
      (
        (refl, (refl, tt)),
        (
          (refl, tt),
          (
            (refl, (refl, tt)),
            ((refl, (refl, tt)), ((refl, (refl, tt)), ((refl, tt), ((refl, tt), tt)))),
          ),
        ),
      ),
    ),
  ),
)

logging_keys-IsOption : All IsOption logging_keys
unfolding logging_keys find_setting options equal
logging_keys-IsOption =
    ((refl, (refl, tt)), ((refl, (refl, tt)), ((refl, (refl, tt)), ((refl, (refl, tt)), tt))))

security_keys-IsOption : All IsOption security_keys
unfolding security_keys find_setting options equal
security_keys-IsOption = (
  (refl, (refl, tt)),
  (
    (refl, (refl, tt)),
    (
      (refl, (refl, tt)),
      (
        (refl, (refl, tt)),
        (
          (refl, (refl, tt)),
          (
            (refl, (refl, tt)),
            (
              (refl, (refl, tt)),
              (
                (refl, (refl, tt)),
                (
                  (refl, (refl, tt)),
                  ((refl, (refl, tt)), ((refl, (refl, tt)), ((refl, (refl, tt)), tt))),
                ),
              ),
            ),
          ),
        ),
      ),
    ),
  ),
)

tls_keys-IsOption : All IsOption tls_keys
unfolding tls_keys find_setting options equal
tls_keys-IsOption = (
  (refl, (refl, tt)),
  (
    (refl, (refl, tt)),
    ((refl, (refl, tt)), ((refl, (refl, tt)), ((refl, tt), ((refl, tt), ((refl, tt), tt))))),
  ),
)

performance_keys-IsOption : All IsOption performance_keys
unfolding performance_keys find_setting options equal
performance_keys-IsOption = (
  (refl, (refl, tt)),
  (
    (refl, (refl, tt)),
    (
      (refl, (refl, tt)),
      (
        (refl, tt),
        ((refl, (refl, tt)), ((refl, (refl, tt)), ((refl, (refl, tt)), ((refl, (refl, tt)), tt)))),
      ),
    ),
  ),
)

reliability_keys-IsOption : All IsOption reliability_keys
unfolding reliability_keys find_setting options equal
reliability_keys-IsOption = (
  (refl, (refl, tt)),
  (
    (refl, (refl, tt)),
    ((refl, (refl, tt)), ((refl, (refl, tt)), ((refl, tt), ((refl, tt), ((refl, tt), tt))))),
  ),
)

advanced_keys-IsOption : All IsOption advanced_keys
unfolding advanced_keys find_setting options equal
advanced_keys-IsOption = (
  (refl, (refl, tt)),
  (
    (refl, (refl, tt)),
    ((refl, (refl, tt)), ((refl, (refl, tt)), ((refl, (refl, tt)), ((refl, tt), tt)))),
  ),
)

pub keys-IsOption : All IsOption keys
unfolding keys
keys-IsOption =
    append-All IsOption network_keys
      (logging_keys ++ security_keys ++ tls_keys ++ performance_keys ++ reliability_keys
        ++ advanced_keys)
      network_keys-IsOption
      (append-All IsOption logging_keys
        (security_keys ++ tls_keys ++ performance_keys ++ reliability_keys ++ advanced_keys)
        logging_keys-IsOption
        (append-All IsOption security_keys
          (tls_keys ++ performance_keys ++ reliability_keys ++ advanced_keys) security_keys-IsOption
          (append-All IsOption tls_keys (performance_keys ++ reliability_keys ++ advanced_keys)
            tls_keys-IsOption
            (append-All IsOption performance_keys (reliability_keys ++ advanced_keys)
              performance_keys-IsOption
              (append-All IsOption reliability_keys advanced_keys reliability_keys-IsOption
                advanced_keys-IsOption)))))

named-IsOption :
    (key : Bytes) (names : List Bytes) (s : Setting)
    → is_named key names ≡ true
    → IsOption (names, s)
    → find_setting key options ≡ some (plain s)
unfolding is_named
named-IsOption key [] s h found = cc
named-IsOption key (name ∷ names) s h (here, there) = elim (Bool-cases (equal key name)) [
  | inl same ↦
      subst (λ k. find_setting k options ≡ some (plain s)) (sym ((equal_iff key name).0 same)) here
  | inr other ↦ named-IsOption key names s (sym (ap (λ b. b || is_named key names) other) ∙ h) there
]

-- A key that the rows know has the same setting on the command line.
pub found-IsOption :
    (key : Bytes) (rows : List (List Bytes × Setting)) (s : Setting)
    → All IsOption rows
    → find_setting key rows ≡ some s
    → find_setting key options ≡ some (plain s)
unfolding find_setting
found-IsOption key [] s all h = cc
found-IsOption key ((names, t) ∷ rows) s (here, there) h =
    let rest = find_setting key rows in
    elim (Bool-cases (is_named key names)) [
      | inl named ↦
          named-IsOption key names t named here
          ∙ ap (λ r. some (plain r)) (some-value (sym (if-true _ (some t) rest named) ∙ h))
      | inr other ↦
          found-IsOption key rows s there (sym (ap (λ b. if b then some t else rest) other) ∙ h)
    ]
