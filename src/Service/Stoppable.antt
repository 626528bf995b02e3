-- ===== src/Service/Stoppable.antt =====
-- The threads of the Windows service (deployment/windows/simple-ntpd-service.cpp): whether a stop control
-- reaches `ServiceMain`.
use simple_ntpd.Common.{◌≡◌, refl, arith, Bool, true, false, ◌||◌, sym, subst, none, some}
use simple_ntpd.Service.{is_running, ServiceStatus, fill_status, set_service_status}
use simple_ntpd.Service.Threads.{
  MainAt, registering, reporting_start, setting_start, creating_event, reporting_failure,
  reporting_running, setting_running, starting_daemon, starting_worker, waiting, Control, stop,
  interrogate, other_control, HandlerAt, idle, reporting_pending, setting_pending, setting_event,
  reading_state, reporting_current, setting_current, Service, launched, Answers, service_main,
  handle_control, service_ctrl_handler, service_worker_thread, is_signalled, signal, is_opening,
  Manager, is_stop, stop_requested, main_step, handler_step, worker_step, control_step, ServiceRun,
  here, and_then,
}

abbrev has_event : Service → Bool
has_event s = elim s.stop_event [ none ↦ false | some b ↦ true ]

-- The handler is on its way to `SetEvent`.
abbrev pub will_signal : HandlerAt → Bool
will_signal reporting_pending = true
will_signal setting_pending = true
will_signal setting_event = true
will_signal _ = false

abbrev RunsAndAccepts : ServiceStatus → Type 0
RunsAndAccepts r = (is_running r.current_state ≡ true) × (r.accepts_stop ≡ true)

-- The handler reports nothing but SERVICE_RUNNING.
abbrev KeepsRunning : HandlerAt → Type 0
KeepsRunning idle = Unit
KeepsRunning reading_state = Unit
KeepsRunning (reporting_current state) = is_running state ≡ true
KeepsRunning setting_current = Unit
KeepsRunning _ = ⊥

-- No control has arrived and none can.
abbrev Opens : Bool → Service → Type 0
Opens requested s =
    (requested ≡ false)
    × (s.handler_at ≡ idle)
    × (s.reports.reported.accepts_stop ≡ false)
    × (is_opening s.reports.reported.current_state ≡ true)

-- Without a stop control the service is reported as running; with one the event is signalled or
-- will be.
abbrev Serves : Bool → Service → Type 0
Serves requested s =
    (has_event s ≡ true)
    × (requested ≡ false
        → RunsAndAccepts s.reports.reported
          × RunsAndAccepts s.reports.service_status
          × KeepsRunning s.handler_at)
    × (requested ≡ true → (is_signalled s.stop_event || will_signal s.handler_at) ≡ true)

abbrev Phase : MainAt → Bool → Service → Type 0
Phase registering q s = Opens q s
Phase reporting_start q s = Opens q s
Phase setting_start q s =
    Opens q s
    × (s.reports.service_status.accepts_stop ≡ false)
    × (is_opening s.reports.service_status.current_state ≡ true)
Phase creating_event q s = Opens q s
Phase (reporting_failure e) q s = Opens q s
Phase reporting_running q s = Opens q s × (has_event s ≡ true)
Phase setting_running q s =
    Opens q s × (has_event s ≡ true) × RunsAndAccepts s.reports.service_status
Phase starting_daemon q s = Serves q s
Phase starting_worker q s = Serves q s
Phase waiting q s = Serves q s
Phase _ q s = Unit

main-Phase :
    (a : Answers) (q : Bool) (s u : Service)
    → service_main a s ≡ some u
    → Phase s.main_at q s
    → Phase u.main_at q u
unfolding service_main fill_status set_service_status is_signalled
main-Phase a q s u e h = ground arith

handler-Phase :
    (q : Bool) (s u : Service)
    → service_ctrl_handler s ≡ some u
    → Phase s.main_at q s
    → Phase u.main_at q u
unfolding service_ctrl_handler fill_status set_service_status is_signalled signal
handler-Phase q s u e h = ground arith

worker-Phase :
    (q : Bool) (s u : Service)
    → service_worker_thread s ≡ some u
    → Phase s.main_at q s
    → Phase u.main_at q u
unfolding service_worker_thread
worker-Phase q s u e h = ground arith

control-Phase :
    (c : Control) (q : Bool) (s : Service)
    → s.handler_at ≡ idle
    → (is_opening s.reports.reported.current_state ≡ true → is_stop c ≡ true)
    → (is_stop c ≡ true → s.reports.reported.accepts_stop ≡ true)
    → Phase s.main_at q s
    → Phase s.main_at (is_stop c || q) (handle_control c s)
unfolding handle_control
control-Phase c q s i opening accepts h = ground arith

-- The control leaves `ServiceMain` where it is.
at_control :
    (c : Control) (q : Bool) (s : Service)
    → Phase s.main_at q (handle_control c s)
    → Phase (handle_control c s).main_at q (handle_control c s)
unfolding handle_control
at_control stop q s h = h
at_control interrogate q s h = h
at_control other_control q s h = h

module _ (m : Manager) where
  run-Phase :
      {s : Service} (run : ServiceRun m launched s) → Phase s.main_at (stop_requested m run) s
  unfolding stop_requested
  run-Phase here = (refl, refl, refl, refl)
  run-Phase (and_then run (main_step a e)) = main-Phase a _ _ _ e (run-Phase run)
  run-Phase (and_then run (handler_step e)) = handler-Phase _ _ _ e (run-Phase run)
  run-Phase (and_then run (worker_step e)) = worker-Phase _ _ _ e (run-Phase run)
  run-Phase (and_then {t = s} run (control_step c i r d e)) =
      subst (λ (t : Service). Phase t.main_at (is_stop c || stop_requested m run) t) (sym e)
        (at_control c _ s (
          control-Phase c _ s i (m.opening_takes_stop c s.reports.reported d) (accepts c s d)
            (run-Phase run)))
    where
      accepts :
          (c : Control) (s : Service)
          → m.delivers c s.reports.reported ≡ true
          → is_stop c ≡ true
          → s.reports.reported.accepts_stop ≡ true
      accepts stop s d e = m.stop_is_accepted s.reports.reported d
      accepts interrogate s d e = absurd (cc)
      accepts other_control s d e = absurd (cc)

  -- Whatever the order of the threads, while ServiceMain waits for the event, the last reported
  -- status is SERVICE_RUNNING and accepts the stop control as long as that has not arrived, and
  -- once it has arrived the event is signalled or the handler is on its way to signal it.
  pub waiting_can_be_stopped :
      {s : Service} (run : ServiceRun m launched s)
      → s.main_at ≡ waiting
      → (stop_requested m run ≡ false
          → (is_running s.reports.reported.current_state ≡ true)
            × (s.reports.reported.accepts_stop ≡ true))
        × (stop_requested m run ≡ true
            → (is_signalled s.stop_event || will_signal s.handler_at) ≡ true)
  waiting_can_be_stopped {s} run e =
      let h : Phase waiting (stop_requested m run) s =
        subst (λ (at : MainAt). Phase at (stop_requested m run) s) e (run-Phase run) in
      (λ n. (h.1 n).0, h.2)
