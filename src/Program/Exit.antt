-- ===== src/Program/Exit.antt =====
-- The exit code of the program (src/main/production.cpp).
use simple_ntpd.Common.{
  ◌≤◌, ◌≡◌, ◌⊎◌, inl, inr, ◌↔◌, ◌≢◌, arith, refl, ap, ◌∙◌, Bool, Bool-cases, true, false, not,
  Option, none, some, List, Option-cases, ◌∷◌, ◌++◌, All, if-true, if-false,
}
use simple_ntpd.Common.Text.{Bytes, codes, equal, equal_iff}
use simple_ntpd.Config.{NtpConfig, set_defaults}
use simple_ntpd.Config.Settings.{is_named}
use simple_ntpd.Config.Validate.{validate}
use simple_ntpd.Logger.{Logger, new_logger}
use simple_ntpd.Server.{NtpServer, new_server}
use simple_ntpd.Server.Lifecycle.{SocketAnswers, start}
use simple_ntpd.Server.Lifecycle.Startup.{start_iff, start-IsServing}
use simple_ntpd.Server.Reports.{Measures}
use simple_ntpd.Program.{
  Parsing, served_commands, choose_command, parse_command_line, configure_logger,
}
use simple_ntpd.Program.Session.{Signal, Ending, one_shot, serve}
use simple_ntpd.Program.Session.Signals.{terminations, serve_ends}
use simple_ntpd.Program.Main.{Outside, end_of, after_start, after_options, main}

module _ (getenv files : Bytes → Option Bytes) where
  -- A command that is accepted is one of those served.
  choose_command-named :
      (p : Option Parsing) (command : Bytes) (c : NtpConfig)
      → choose_command getenv files p ≡ some (command, c)
      → is_named command (served_commands getenv files) ≡ true
  unfolding choose_command
  choose_command-named p command c h = ground arith

  one_shot-start :
      (exists : Bytes → Bool) (m : Measures) (l : Logger) (s : NtpServer)
      → one_shot getenv files exists m (codes "start") l s ≡ none
  unfolding one_shot equal
  one_shot-start exists m l s = refl

  one_shot-not_none :
      (exists : Bytes → Bool) (m : Measures) (command : Bytes) (l : Logger) (s : NtpServer)
      → is_named command (served_commands getenv files) ≡ true
      → equal command (codes "start") ≡ false
      → one_shot getenv files exists m command l s ≢ none
  unfolding one_shot is_named
  one_shot-not_none exists m command l s named other e = ground arith

  one_shot-other :
      (exists : Bytes → Bool) (m : Measures) (command : Bytes) (l : Logger) (s : NtpServer)
      → is_named command (served_commands getenv files) ≡ true
      → equal command (codes "start") ≡ false
      → (r : Bytes × NtpServer) × (one_shot getenv files exists m command l s ≡ some r)
  one_shot-other exists m command l s named other =
      elim (Option-cases (one_shot getenv files exists m command l s)) [
        | inl e ↦ absurd (one_shot-not_none exists m command l s named other e)
        | inr found ↦ found
      ]

  -- What the program comes to with code 0 or not.
  abbrev pub EndsWith0Iff : Type 0 → Option Ending → Type 0
  EndsWith0Iff P o = (e : Ending) × (o ≡ some e) × ((e.code ≡ 0) ↔ P)

  module _ (quiet : List (List Signal)) (p : List Signal) (rest : List (List Signal))
      (none_asked : All (λ es. terminations es ≡ 0) quiet) (some_asked : 1 ≤ terminations p) where
    serve-EndsWith0Iff :
        (l : Logger) (s : NtpServer)
        → s.running ≡ true
        → EndsWith0Iff (terminations p ≡ 1) (
            serve
              (quiet ++ p ∷ rest)
              (record { server = s; logger = l; shutdown_requested = false }))
    serve-EndsWith0Iff l s up =
        elim (serve_ends quiet p rest
          (record { server = s; logger = l; shutdown_requested = false }) up refl none_asked
          some_asked) [
            | inl (one, t, ends, _, _) ↦
                (record { code = 0; server = some t }, ends, ((λ _. one), (λ _. refl)))
            | inr (more, ends) ↦ (
              record { code = 1; server = none },
              ends,
              ((λ e. absurd (omega (arith, e))), (λ e. absurd (omega (arith, e, more)))),
            )
          ]

    after_start-EndsWith0Iff :
        (o : Outside) (command : Bytes) (l : Logger) (s : NtpServer)
        → o.pauses ≡ quiet ++ p ∷ rest
        → is_named command (served_commands getenv files) ≡ true
        → s.running ≡ true
        → EndsWith0Iff
            ((command ≢ codes "start") ⊎ (terminations p ≡ 1))
            (after_start getenv files o command l s)
    unfolding after_start
    after_start-EndsWith0Iff o command l s pauses named up =
        elim (Bool-cases (equal command (codes "start"))) [
          | inl is_start ↦
              let same = (equal_iff command (codes "start")).0 is_start in
              let (e, ends, (zero_then, then_zero)) = serve-EndsWith0Iff l s up in
              let shot = λ (e : command ≡ codes "start").
                ap
                  (λ k. end_of getenv files o l s (one_shot getenv files o.exists o.measures k l s))
                  e
                ∙ ap (end_of getenv files o l s) (one_shot-start o.exists o.measures l s) in
              let looped =
                ap (λ ps. serve ps (record { server = s; logger = l; shutdown_requested = false }))
                  pauses in
              (
                e,
                shot same ∙ looped ∙ ends,
                (
                  (λ z. inr (zero_then z)),
                  (λ c. then_zero (elim c [ inl other ↦ absurd (other same) | inr one ↦ one ])),
                ),
              )
          | inr is_other ↦
              let ((text, t), shot) =
                one_shot-other o.exists o.measures command l s named is_other in
              (
                record { code = 0; server = some t },
                ap (end_of getenv files o l s) shot,
                (
                  (λ _.
                      inl (λ same.
                        let e = (equal_iff command (codes "start")).1 same in absurd (cc))),
                  (λ _. refl),
                ),
              )
        ]

    -- The socket can be opened and bound.
    abbrev pub CanListen : SocketAnswers → Type 0
    CanListen answers =
        (answers.opened ≢ none) × (answers.address_known ≡ true) × (answers.bound ≡ true)

    after_options-EndsWith0Iff :
        (o : Outside) (command : Bytes) (c : NtpConfig)
        → o.pauses ≡ quiet ++ p ∷ rest
        → is_named command (served_commands getenv files) ≡ true
        → validate c ≡ true
        → EndsWith0Iff
            (CanListen o.answers × ((command ≢ codes "start") ⊎ (terminations p ≡ 1)))
            (after_options getenv files o (some (command, c)))
    unfolding after_options
    after_options-EndsWith0Iff o command c pauses named valid =
        let r = start o.answers (new_server c) in
        let (started, conditions) = start_iff o.answers (new_server c) valid in
        elim (Bool-cases r.1) [
          | inl success ↦
              let (_, open_, known, bound) = started success in
              let l = configure_logger getenv files c new_logger in
              let (e, ends, (zero_then, then_zero)) =
                after_start-EndsWith0Iff o command l r.0 pauses named
                  (start-IsServing o.answers (new_server c) success).is_running in
              (
                e,
                if-false (not r.1) _ _ (ap not success) ∙ ends,
                ((λ z. ((open_, known, bound), zero_then z)), (λ (_, k). then_zero k)),
              )
          | inr failure ↦ (
            record { code = 1; server = some r.0 },
            if-true (not r.1) _ _ (ap not failure),
            (
              (λ z. absurd (omega (arith, z))),
              (λ ((open_, known, bound), _).
                  let success = conditions (refl, open_, known, bound) in absurd (cc)),
            ),
          )
        ]

    -- If nothing throws, the command line is accepted with a valid configuration, signals come in
    -- the pauses of the loop alone, and there pauses without a signal to end the program are
    -- followed by one with some, then the program ends, and its exit code is 0 exactly if the
    -- socket opens, the listen address can be read, the bind succeeds, and either the command is
    -- not start or that pause has exactly one such signal.
    pub main_ends :
        (o : Outside) (args : List Bytes) (command : Bytes) (c : NtpConfig)
        → o.pauses ≡ quiet ++ p ∷ rest
        → parse_command_line getenv files args set_defaults ≡ some (command, c)
        → validate c ≡ true
        → (e : Ending) × (main getenv files o args ≡ some e)
          × ((e.code ≡ 0)
              ↔ (CanListen o.answers × ((command ≢ codes "start") ⊎ (terminations p ≡ 1))))
    unfolding main parse_command_line
    main_ends o args command c pauses accepted valid =
        let (e, ends, k) =
          after_options-EndsWith0Iff o command c pauses (choose_command-named _ command c accepted)
            valid in
        (e, ap (after_options getenv files o) accepted ∙ ends, k)
