-- ===== src/Program/Session/Signals.antt =====
-- What the signals do to the program (src/main/production.cpp).
use simple_ntpd.Common.{
  ℕ, suc, ◌≤◌, ◌≡◌, ◌⊎◌, inl, inr, refl, ap, ◌∙◌, arith, Bool, true, false, Option, none, some,
  List, [], ◌∷◌, ◌++◌, All, if-true, if-false,
}
use simple_ntpd.Common.Text.{Bytes}
use simple_ntpd.Logger.{Logger}
use simple_ntpd.Server.{NtpServer}
use simple_ntpd.Server.Connections.{cleanup_connections}
use simple_ntpd.Server.Lifecycle.{stop}
use simple_ntpd.Server.Reload.{reload_config}
use simple_ntpd.Server.Reload.Outcome.{reload_config_cases}
use simple_ntpd.Program.Session.{
  Session, Signal, terminate, hang_up, alive, exited, signal_handler, on_hang_up, handle,
  handle_all, keeps_serving, main_loop, shut_down, serve,
}

abbrev pub IsHangUp : Signal → Type 0
IsHangUp terminate = ⊥
IsHangUp (hang_up getenv files) = Unit

-- How many of some signals ask the program to end.
unfoldable pub terminations : List Signal → ℕ
terminations [] = 0
terminations (terminate ∷ es) = suc (terminations es)
terminations (hang_up getenv files ∷ es) = terminations es

abbrev IsServing : Session → Type 0
IsServing s = (s.server.running ≡ true) × (s.shutdown_requested ≡ false)

abbrev IsStopped : Session → Type 0
IsStopped s =
    (s.server.running ≡ false) × (s.server.server_socket ≡ none) × (s.shutdown_requested ≡ true)

reload-running :
    (getenv files : Bytes → Option Bytes) (l : Logger) (s : NtpServer)
    → ((reload_config getenv files l s).0.running ≡ s.running)
      × ((reload_config getenv files l s).0.server_socket ≡ s.server_socket)
reload-running getenv files l s = elim (reload_config_cases getenv files l s) [
  | inl (_, kept) ↦ (
    ap (λ (r : NtpServer × Logger × Bool). r.0.running) kept,
    ap (λ (r : NtpServer × Logger × Bool). r.0.server_socket) kept,
  )
  | inr (_, (_, new, _)) ↦ (
    ap (λ (r : NtpServer × Logger × Bool). r.0.running) new,
    ap (λ (r : NtpServer × Logger × Bool). r.0.server_socket) new,
  )
]

stop-stopped :
    (s : NtpServer)
    → s.running ≡ true
    → ((stop s).running ≡ false) × ((stop s).server_socket ≡ none)
unfolding stop cleanup_connections
stop-stopped s up = ground arith

-- What a list of signals makes of a session that serves, and of one that has been stopped.
module _ (es : List Signal) where
  abbrev Serves : Type 0
  Serves =
      (s : Session)
      → IsServing s
      → terminations es ≡ 0
      → (t : Session) × (handle_all es (alive s) ≡ alive t) × IsServing t

  abbrev Stays : Type 0
  Stays =
      (s : Session)
      → IsStopped s
      → ((terminations es ≡ 0) × (t : Session) × (handle_all es (alive s) ≡ alive t) × IsStopped t)
        ⊎ ((1 ≤ terminations es) × (handle_all es (alive s) ≡ exited 1))

handle_all-exited : (es : List Signal) (code : ℕ) → handle_all es (exited code) ≡ exited code
unfolding handle_all handle
handle_all-exited [] code = refl
handle_all-exited (e ∷ es) code = handle_all-exited es code

hang_up-IsServing :
    (getenv files : Bytes → Option Bytes) (s : Session)
    → IsServing s
    → IsServing (on_hang_up getenv files s)
unfolding on_hang_up
hang_up-IsServing getenv files s (up, quiet) =
    ((reload-running getenv files s.logger s.server).0 ∙ up, quiet)

hang_up-IsStopped :
    (getenv files : Bytes → Option Bytes) (s : Session)
    → IsStopped s
    → IsStopped (on_hang_up getenv files s)
unfolding on_hang_up
hang_up-IsStopped getenv files s (down, closed, asked) =
    let (same, socket) = reload-running getenv files s.logger s.server in
    (same ∙ down, socket ∙ closed, asked)

hang_ups-Serves : (es : List Signal) → Serves es
unfolding handle_all handle terminations
hang_ups-Serves [] s h none_asked = (s, refl, h)
hang_ups-Serves (terminate ∷ es) s h none_asked = absurd (omega arith)
hang_ups-Serves (hang_up getenv files ∷ es) s h none_asked =
    hang_ups-Serves es (on_hang_up getenv files s) (hang_up-IsServing getenv files s h) none_asked

stopped-Stays : (es : List Signal) → Stays es
unfolding handle_all handle terminations signal_handler
stopped-Stays [] s h = inl (refl, s, refl, h)
stopped-Stays (terminate ∷ es) s (down, closed, asked) = inr (
  omega arith,
  ap (handle_all es) (if-true s.shutdown_requested _ _ asked) ∙ handle_all-exited es 1,
)
stopped-Stays (hang_up getenv files ∷ es) s h =
    stopped-Stays es (on_hang_up getenv files s) (hang_up-IsStopped getenv files s h)

-- A pause with a signal to end.
pause_ends :
    (es : List Signal) (s : Session)
    → IsServing s
    → 1 ≤ terminations es
    → ((terminations es ≡ 1) × (t : Session) × (handle_all es (alive s) ≡ alive t) × IsStopped t)
      ⊎ ((2 ≤ terminations es) × (handle_all es (alive s) ≡ exited 1))
unfolding handle_all handle terminations signal_handler
pause_ends [] s h some_asked = absurd (omega arith)
pause_ends (terminate ∷ es) s (up, quiet) some_asked =
    let stopped : Session = record s { server = stop s.server; shutdown_requested = true } in
    let (down, closed) = stop-stopped s.server up in
    let first =
      ap (handle_all es) (if-false s.shutdown_requested (exited 1) (alive stopped) quiet) in
    elim (stopped-Stays es stopped (down, closed, refl)) [
      | inl (no_more, t, e, k) ↦ inl (ap suc no_more, t, first ∙ e, k)
      | inr (more, e) ↦ inr (omega arith, first ∙ e)
    ]
pause_ends (hang_up getenv files ∷ es) s h some_asked =
    pause_ends es (on_hang_up getenv files s) (hang_up-IsServing getenv files s h) some_asked

serving_goes_on :
    (p : List Signal) (ps : List (List Signal)) (s : Session)
    → IsServing s
    → main_loop (p ∷ ps) (alive s) ≡ main_loop ps (handle_all p (alive s))
unfolding main_loop
serving_goes_on p ps s (up, quiet) = if-true (keeps_serving s) _ _ (ground arith)

stopped_ends :
    (ps : List (List Signal)) (s : Session) → IsStopped s → main_loop ps (alive s) ≡ some (alive s)
unfolding main_loop
stopped_ends [] s (down, closed, asked) = if-false (keeps_serving s) _ _ (ground arith)
stopped_ends (p ∷ ps) s (down, closed, asked) = if-false (keeps_serving s) _ _ (ground arith)

exited_ends : (ps : List (List Signal)) (code : ℕ) → main_loop ps (exited code) ≡ some (exited code)
unfolding main_loop
exited_ends [] code = refl
exited_ends (p ∷ ps) code = refl

quiet_pauses :
    (quiet ps : List (List Signal)) (s : Session)
    → IsServing s
    → All (λ es. terminations es ≡ 0) quiet
    → (t : Session) × (main_loop (quiet ++ ps) (alive s) ≡ main_loop ps (alive t)) × IsServing t
quiet_pauses [] ps s h k = (s, refl, h)
quiet_pauses (q ∷ qs) ps s h (none_asked, others) =
    let (u, e, serving) = hang_ups-Serves q s h none_asked in
    let (t, f, still) = quiet_pauses qs ps u serving others in
    (t, serving_goes_on q (qs ++ ps) s h ∙ ap (main_loop (qs ++ ps)) e ∙ f, still)

still_stopped :
    (s : NtpServer)
    → s.running ≡ false
    → s.server_socket ≡ none
    → ((stop s).running ≡ false) × ((stop s).server_socket ≡ none)
unfolding stop
still_stopped s down closed = ground arith

-- If a server that runs meets pauses with no signal to end the program and then one with some,
-- then with exactly one of them main returns 0 and the server is stopped and its socket is
-- closed, and with more the program exits with 1, whatever requests of a reload come between.
pub serve_ends :
    (quiet : List (List Signal)) (p : List Signal) (rest : List (List Signal)) (s : Session)
    → s.server.running ≡ true
    → s.shutdown_requested ≡ false
    → All (λ es. terminations es ≡ 0) quiet
    → 1 ≤ terminations p
    → ((terminations p ≡ 1)
        × (t : NtpServer) × (serve (quiet ++ p ∷ rest) s
            ≡ some (record { code = 0; server = some t }))
        × (t.running ≡ false)
        × (t.server_socket ≡ none))
      ⊎ ((2 ≤ terminations p)
          × (serve (quiet ++ p ∷ rest) s ≡ some (record { code = 1; server = none })))
unfolding serve shut_down
serve_ends quiet p rest s up unasked none_asked some_asked =
    let (t, reached, serving) = quiet_pauses quiet (p ∷ rest) s (up, unasked) none_asked in
    let into_pause = reached ∙ serving_goes_on p rest t serving in
    elim (pause_ends p t serving some_asked) [
      | inl (one, u, e, (down, closed, asked)) ↦
          let (still, gone) = still_stopped u.server down closed in
          let looped =
            into_pause ∙ ap (main_loop rest) e ∙ stopped_ends rest u (down, closed, asked) in
          inl (one, stop u.server, rw (serve, looped) refl, still, gone)
      | inr (more, e) ↦
          let looped = into_pause ∙ ap (main_loop rest) e ∙ exited_ends rest 1 in
          inr (more, rw (serve, looped) refl)
    ]
