-- ===== src/Service/Sound.antt =====
-- The threads of the Windows service (deployment/windows/simple-ntpd-service.cpp): what a status of
-- SERVICE_STOPPED or SERVICE_STOP_PENDING says of the service.
use simple_ntpd.Common.{◌≡◌, ◌⊎◌, refl, arith, Bool, true, false, ◌||◌, sym, subst, none, some}
use simple_ntpd.Service.{ServiceState, is_stopped, is_stop_pending, fill_status, set_service_status}
use simple_ntpd.Service.Threads.{
  MainAt, registering, reporting_start, setting_start, creating_event, reporting_failure,
  setting_failure, reporting_running, setting_running, starting_daemon, starting_worker, waiting,
  stopping_daemon, reporting_stopped, setting_stopped, returned, Control, HandlerAt, absent, idle,
  reporting_pending, setting_pending, setting_current, setting_event, clearing_flag, reading_state,
  reporting_current, WorkerAt, Service, launched, Answers, service_main, handle_control,
  service_ctrl_handler, service_worker_thread, is_signalled, signal, Manager, is_stop,
  stop_requested, main_step, handler_step, worker_step, control_step, ServiceRun, here, and_then,
}

-- What `ServiceMain` has done where it stands.
abbrev pub is_absent : WorkerAt → Bool
is_absent absent = true
is_absent _ = false

abbrev pub HasWorked : Service → Type 0
HasWorked s =
    (s.daemon_started ≡ true) × (is_signalled s.stop_event ≡ true) × (is_absent s.worker_at ≡ false)

abbrev pub MainSound : MainAt → Service → Type 0
MainSound registering s = (s.stop_event ≡ none) × (s.daemon_started ≡ false)
MainSound reporting_start s = (s.stop_event ≡ none) × (s.daemon_started ≡ false)
MainSound setting_start s = (s.stop_event ≡ none) × (s.daemon_started ≡ false)
MainSound creating_event s = (s.stop_event ≡ none) × (s.daemon_started ≡ false)
MainSound (reporting_failure e) s = (s.stop_event ≡ none) × (s.daemon_started ≡ false)
MainSound setting_failure s = (s.stop_event ≡ none) × (s.daemon_started ≡ false)
MainSound reporting_running s = s.daemon_started ≡ false
MainSound setting_running s = s.daemon_started ≡ false
MainSound starting_daemon s = s.daemon_started ≡ false
MainSound starting_worker s = s.daemon_started ≡ true
MainSound waiting s = (s.daemon_started ≡ true) × (is_absent s.worker_at ≡ false)
MainSound stopping_daemon s = HasWorked s
MainSound reporting_stopped s = HasWorked s × (s.daemon_stopped ≡ true)
MainSound setting_stopped s = HasWorked s × (s.daemon_stopped ≡ true)
MainSound returned s =
    ((s.stop_event ≡ none) × (s.daemon_started ≡ false)) ⊎ (HasWorked s × (s.daemon_stopped ≡ true))

-- `ServiceMain` has nothing left but to report that it has stopped, if that, and to return.
abbrev pub has_stopped : MainAt → Bool
has_stopped setting_failure = true
has_stopped setting_stopped = true
has_stopped returned = true
has_stopped _ = false

-- What the states say that a status or the handler holds: `requested` tells whether the stop
-- control has arrived.
abbrev pub Honest : Bool → ServiceState → MainAt → Type 0
Honest requested state at =
    (is_stop_pending state ≡ true → requested ≡ true)
    × (is_stopped state ≡ true → has_stopped at ≡ true)

abbrev pub HandlerSound : HandlerAt → Bool → MainAt → Type 0
HandlerSound idle requested at = Unit
HandlerSound reporting_pending requested at = requested ≡ true
HandlerSound setting_pending requested at = requested ≡ true
HandlerSound setting_event requested at = requested ≡ true
HandlerSound clearing_flag requested at = requested ≡ true
HandlerSound reading_state requested at = Unit
HandlerSound (reporting_current state) requested at = Honest requested state at
HandlerSound setting_current requested at = Unit

pub record IsSound (requested : Bool) (s : Service) : Type 0 where
  pub main : MainSound s.main_at s
  pub handler : HandlerSound s.handler_at requested s.main_at
  pub current : Honest requested s.reports.service_status.current_state s.main_at
  pub told : Honest requested s.reports.reported.current_state s.main_at
  pub signalled : is_signalled s.stop_event ≡ true → requested ≡ true

main-MainSound :
    (a : Answers) (s u : Service)
    → service_main a s ≡ some u
    → MainSound s.main_at s
    → MainSound u.main_at u
unfolding service_main is_signalled
main-MainSound a s u e h = ground arith

handler-MainSound :
    (s u : Service)
    → service_ctrl_handler s ≡ some u
    → MainSound s.main_at s
    → MainSound u.main_at u
unfolding service_ctrl_handler is_signalled signal
handler-MainSound s u e h = ground arith

main-IsSound :
    (a : Answers) (q : Bool) (s u : Service) → service_main a s ≡ some u → IsSound q s → IsSound q u
unfolding service_main fill_status set_service_status is_signalled
main-IsSound a q s u e h = record {
  main = main-MainSound a s u e h.main;
  handler = ground (arith, h.handler, h.current);
  current = ground (arith, h.current);
  told = ground (arith, h.told, h.current);
  signalled = ground (arith, h.signalled, h.main);
}

handler-IsSound :
    (q : Bool) (s u : Service) → service_ctrl_handler s ≡ some u → IsSound q s → IsSound q u
unfolding service_ctrl_handler fill_status set_service_status is_signalled signal
handler-IsSound q s u e h = record {
  main = handler-MainSound s u e h.main;
  handler = ground (arith, h.handler, h.current);
  current = ground (arith, h.handler, h.current);
  told = ground (arith, h.told, h.current);
  signalled = ground (arith, h.handler, h.signalled);
}

worker-IsSound :
    (q : Bool) (s u : Service) → service_worker_thread s ≡ some u → IsSound q s → IsSound q u
unfolding service_worker_thread is_signalled
worker-IsSound q s u e h = record {
  main = ground (arith, h.main);
  handler = ground (arith, h.handler);
  current = ground (arith, h.current);
  told = ground (arith, h.told, h.current);
  signalled = ground (arith, h.signalled);
}

control-IsSound :
    (c : Control) (q : Bool) (s : Service)
    → s.handler_at ≡ idle
    → IsSound q s
    → IsSound (is_stop c || q) (handle_control c s)
unfolding handle_control
control-IsSound c q s e h = record {
  main = ground (arith, h.main);
  handler = ground arith;
  current = ground (arith, h.current);
  told = ground (arith, h.told, h.current);
  signalled = ground (arith, h.signalled);
}

module _ (m : Manager) where
  pub run-IsSound : {s : Service} (run : ServiceRun m launched s) → IsSound (stop_requested m run) s
  unfolding stop_requested is_signalled
  run-IsSound here = record {
    main = (refl, refl);
    handler = tt;
    current = (λ e. cc, λ e. cc);
    told = (λ e. cc, λ e. cc);
    signalled = λ e. cc;
  }
  run-IsSound (and_then run (main_step a e)) = main-IsSound a _ _ _ e (run-IsSound run)
  run-IsSound (and_then run (handler_step e)) = handler-IsSound _ _ _ e (run-IsSound run)
  run-IsSound (and_then run (worker_step e)) = worker-IsSound _ _ _ e (run-IsSound run)
  run-IsSound (and_then run (control_step c idle_now registered delivered e)) =
      subst (IsSound _) (sym e) (control-IsSound c _ _ idle_now (run-IsSound run))

  -- Whatever the order of the threads, with the writes to the shared status and the call that
  -- reports it as separate steps, a last reported status of SERVICE_STOP_PENDING means that the
  -- stop control has arrived, and one of SERVICE_STOPPED that ServiceMain has nothing left but to
  -- report that, if it has not, and to return, and that either the daemon was never started or it
  -- was started, the stop control has arrived, and the daemon was stopped.
  pub reported_status :
      {s : Service} (run : ServiceRun m launched s)
      → (is_stop_pending s.reports.reported.current_state ≡ true → stop_requested m run ≡ true)
        × (is_stopped s.reports.reported.current_state ≡ true
            → (has_stopped s.main_at ≡ true)
              × ((s.daemon_started ≡ false)
                  ⊎ ((s.daemon_started ≡ true)
                      × (s.daemon_stopped ≡ true)
                      × (stop_requested m run ≡ true))))
  reported_status {s} run =
      let h : IsSound (stop_requested m run) s = run-IsSound run in
      ground (arith, h.main, h.told, h.signalled)
