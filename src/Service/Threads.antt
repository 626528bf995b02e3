-- ===== src/Service/Threads.antt =====
-- The threads of the Windows service (deployment/windows/simple-ntpd-service.cpp): `ServiceMain`,
-- `ServiceCtrlHandler` on the thread of the control dispatcher, and `ServiceWorkerThread`, in
-- every order of their steps. A step is one statement; a call of `ReportSvcStatus` is two steps, the
-- writes to `g_ServiceStatus`, of which the other threads read the state alone, and the call of
-- `SetServiceStatus`, which reads them all again; its argument is read in the step before.
use simple_ntpd.Common.{ℕ, ◌≡◌, ◌≢◌, Bool, true, false, ◌||◌, Option, none, some, if◌then◌else◌}
use simple_ntpd.Service.{
  ServiceState, unset, start_pending, running, stop_pending, stopped, ServiceStatus, Reports,
  no_reports, fill_status, set_service_status,
}

-- The statement of `ServiceMain` that is next: `reporting` is a call of `ReportSvcStatus` and
-- `setting` its call of `SetServiceStatus`.
pub data MainAt : Type 0 where
  registering reporting_start setting_start creating_event : MainAt
  reporting_failure : ℕ → MainAt
  setting_failure reporting_running setting_running : MainAt
  starting_daemon starting_worker waiting : MainAt
  stopping_daemon reporting_stopped setting_stopped returned : MainAt

pub data Control : Type 0 where
  stop interrogate other_control : Control

abbrev pub is_stop : Control → Bool
is_stop stop = true
is_stop _ = false

-- The statement of `ServiceCtrlHandler` that is next.
pub data HandlerAt : Type 0 where
  idle reporting_pending setting_pending setting_event clearing_flag reading_state : HandlerAt
  reporting_current : ServiceState → HandlerAt
  setting_current : HandlerAt

-- The statement of `ServiceWorkerThread` that is next: `entering` sets the flag.
pub data WorkerAt : Type 0 where
  absent entering testing_flag waiting_a_second ended : WorkerAt

-- `daemon_started` and `daemon_stopped` tell whether `StartNtpDaemon` and `StopNtpDaemon` were
-- called; `stop_event` is the event with its state, or `none` for no event.
pub record Service : Type 0 where
  pub reports : Reports
  pub stop_event : Option Bool
  pub service_running : Bool
  pub daemon_started : Bool
  pub daemon_stopped : Bool
  pub main_at : MainAt
  pub handler_at : HandlerAt
  pub worker_at : WorkerAt

abbrev pub launched : Service
launched = record {
  reports = no_reports;
  stop_event = none;
  service_running = false;
  daemon_started = false;
  daemon_stopped = false;
  main_at = registering;
  handler_at = idle;
  worker_at = absent;
}

-- What Windows answers to `ServiceMain`: the handle of `RegisterServiceCtrlHandler`, the event of
-- `CreateEvent`, or else what `GetLastError` answers.
pub record Answers : Type 0 where
  pub handler_registered : Bool
  pub event_created : Bool
  pub last_error : ℕ

-- `SetEvent`, which does nothing without an event.
unfoldable pub signal : Option Bool → Option Bool
signal none = none
signal (some b) = some true

unfoldable pub is_signalled : Option Bool → Bool
is_signalled none = false
is_signalled (some b) = b

-- The next step of `ServiceMain`; `none` while it waits and when it has returned.
unfoldable pub service_main : Answers → Service → Option Service
unfolding is_signalled
service_main a s = elim s.main_at [
  | registering ↦
      if a.handler_registered
      then some (record s { main_at = reporting_start })
      else some (record s { main_at = returned })
  | reporting_start ↦
      some
        (record s { reports = fill_status start_pending 0 3000 s.reports; main_at = setting_start })
  | setting_start ↦
      some (record s { reports = set_service_status s.reports; main_at = creating_event })
  | creating_event ↦
      if a.event_created
      then some (record s { stop_event = some false; main_at = reporting_running })
      else some (record s { main_at = reporting_failure a.last_error })
  | reporting_failure e ↦
      some (record s { reports = fill_status stopped e 0 s.reports; main_at = setting_failure })
  | setting_failure ↦ some (record s { reports = set_service_status s.reports; main_at = returned })
  | reporting_running ↦
      some (record s { reports = fill_status running 0 0 s.reports; main_at = setting_running })
  | setting_running ↦
      some (record s { reports = set_service_status s.reports; main_at = starting_daemon })
  | starting_daemon ↦ some (record s { daemon_started = true; main_at = starting_worker })
  | starting_worker ↦ some (record s { worker_at = entering; main_at = waiting })
  | waiting ↦
      if is_signalled s.stop_event then some (record s { main_at = stopping_daemon }) else none
  | stopping_daemon ↦ some (record s { daemon_stopped = true; main_at = reporting_stopped })
  | reporting_stopped ↦
      some (record s { reports = fill_status stopped 0 0 s.reports; main_at = setting_stopped })
  | setting_stopped ↦ some (record s { reports = set_service_status s.reports; main_at = returned })
  | returned ↦ none
]

-- The call of `ServiceCtrlHandler` with a control.
unfoldable pub handle_control : Control → Service → Service
handle_control c s = elim c [
  | stop ↦ record s { handler_at = reporting_pending }
  | interrogate ↦ record s { handler_at = reading_state }
  | other_control ↦ record s { handler_at = reading_state }
]

-- The next step of `ServiceCtrlHandler`; `none` if it is not being called.
unfoldable pub service_ctrl_handler : Service → Option Service
unfolding signal
service_ctrl_handler s = elim s.handler_at [
  | idle ↦ none
  | reporting_pending ↦
      some (record s {
        reports = fill_status stop_pending 0 0 s.reports;
        handler_at = setting_pending;
      })
  | setting_pending ↦
      some (record s { reports = set_service_status s.reports; handler_at = setting_event })
  | setting_event ↦ some (record s { stop_event = signal s.stop_event; handler_at = clearing_flag })
  | clearing_flag ↦ some (record s { service_running = false; handler_at = reading_state })
  | reading_state ↦
      some (record s { handler_at = reporting_current s.reports.service_status.current_state })
  | reporting_current state ↦
      some (record s { reports = fill_status state 0 0 s.reports; handler_at = setting_current })
  | setting_current ↦ some (record s { reports = set_service_status s.reports; handler_at = idle })
]

-- The next step of `ServiceWorkerThread`; the wait of a second ends with the event or without.
unfoldable pub service_worker_thread : Service → Option Service
unfolding is_signalled
service_worker_thread s = elim s.worker_at [
  | absent ↦ none
  | entering ↦ some (record s { service_running = true; worker_at = testing_flag })
  | testing_flag ↦
      if s.service_running
      then some (record s { worker_at = waiting_a_second })
      else some (record s { worker_at = ended })
  | waiting_a_second ↦
      if is_signalled s.stop_event
      then some (record s { worker_at = ended })
      else some (record s { worker_at = testing_flag })
  | ended ↦ none
]

abbrev pub is_opening : ServiceState → Bool
is_opening unset = true
is_opening start_pending = true
is_opening _ = false

-- When the service control manager calls the handler, by the status that was last reported, as the
-- documentation of `ControlService` says: the stop control only if that status accepts it, and
-- until the service has reported more than SERVICE_START_PENDING no other control than that.
pub record Manager : Type 0 where
  pub delivers : Control → ServiceStatus → Bool
  pub stop_is_accepted : (r : ServiceStatus) → delivers stop r ≡ true → r.accepts_stop ≡ true
  pub opening_takes_stop :
      (c : Control) (r : ServiceStatus)
      → delivers c r ≡ true
      → is_opening r.current_state ≡ true
      → is_stop c ≡ true

module _ (m : Manager) where
  -- One step of one of the threads, or a control that arrives while none is being handled.
  pub data ServiceStep (s u : Service) : Type 0 where
    main_step : (a : Answers) → service_main a s ≡ some u → ServiceStep s u
    handler_step : service_ctrl_handler s ≡ some u → ServiceStep s u
    worker_step : service_worker_thread s ≡ some u → ServiceStep s u
    control_step :
        (c : Control)
        → s.handler_at ≡ idle
        → s.main_at ≢ registering
        → m.delivers c s.reports.reported ≡ true
        → u ≡ handle_control c s
        → ServiceStep s u

  pub data ServiceRun (s : Service) : Service → Type 0 where
    here : ServiceRun s s
    and_then : {t u : Service} → ServiceRun s t → ServiceStep t u → ServiceRun s u

  -- One run and then another.
  pub continues : {r s u : Service} → ServiceRun r s → ServiceRun s u → ServiceRun r u
  continues before here = before
  continues before (and_then run step) = and_then (continues before run) step

  -- Whether the stop control has arrived in a run.
  unfoldable pub stop_requested : {s u : Service} → ServiceRun s u → Bool
  stop_requested here = false
  stop_requested (and_then run (main_step a e)) = stop_requested run
  stop_requested (and_then run (handler_step e)) = stop_requested run
  stop_requested (and_then run (worker_step e)) = stop_requested run
  stop_requested (and_then run (control_step c i r d e)) = is_stop c || stop_requested run
