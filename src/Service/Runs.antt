-- ===== src/Service/Runs.antt =====
-- The Windows service (deployment/windows/simple-ntpd-service.cpp): tests, and the theorems at runs of the
-- threads and at answers of the Windows calls.
use simple_ntpd.Common.{
  ◌≢◌, ◌≡◌, ◌≤◌, ◌⊎◌, ◌&&◌, ◌||◌, refl, arith, Bool, true, false, not, some, [], ◌∷◌, if◌then◌else◌,
}
use simple_ntpd.Common.Text.{codes, equal, to_lower}
use simple_ntpd.Service.{
  stop_pending, stopped, is_stopped, is_stop_pending, ServiceStatus, Reports, no_reports,
  fill_status, set_service_status, is_running, tmain,
}
use simple_ntpd.Service.Threads.{
  registering, waiting, Control, stop, Service, launched, Answers, service_main, handle_control,
  service_ctrl_handler, service_worker_thread, is_signalled, is_opening, Manager, is_stop,
  stop_requested, main_step, handler_step, worker_step, control_step, ServiceRun, here, and_then,
}
use simple_ntpd.Service.Sound.{reported_status, has_stopped}
use simple_ntpd.Service.Ends.{stop_ends_threads, work_of, BothDone, WorkIsLeft}
use simple_ntpd.Service.Stoppable.{waiting_can_be_stopped, will_signal}
use simple_ntpd.Service.Setup.{InstallAnswers, UninstallAnswers}

-- A service that is stopped or stopping gets no control; one that opens or runs is stopped if it
-- accepts that, and gets other controls if it runs.
abbrev delivers : Control → ServiceStatus → Bool
delivers c r =
    if is_stop c
    then r.accepts_stop && not (is_stopped r.current_state || is_stop_pending r.current_state)
    else is_running r.current_state

accepted : (r : ServiceStatus) → delivers stop r ≡ true → r.accepts_stop ≡ true
accepted r e = ground arith

opening :
    (c : Control) (r : ServiceStatus)
    → delivers c r ≡ true
    → is_opening r.current_state ≡ true
    → is_stop c ≡ true
opening c r d e = ground arith

abbrev manager : Manager
manager = record { delivers = delivers; stop_is_accepted = accepted; opening_takes_stop = opening }

abbrev granted : Answers
granted = record { handler_registered = true; event_created = true; last_error = 0 }

awake : waiting ≢ registering
awake e = cc

-- `ServiceMain` up to its wait.
abbrev serving : (s : Service) × ServiceRun manager launched s
unfolding service_main service_ctrl_handler handle_control fill_status set_service_status
serving = (
  _,
  and_then
      (and_then
        (and_then
          (and_then
            (and_then
              (and_then (and_then (and_then here (main_step granted refl)) (main_step granted refl))
                (main_step granted refl))
              (main_step granted refl))
            (main_step granted refl))
          (main_step granted refl))
        (main_step granted refl))
      (main_step granted refl),
)

-- A stop control up to `SetEvent`.
abbrev signalling : (s : Service) × ServiceRun manager launched s
unfolding service_main service_ctrl_handler handle_control fill_status set_service_status
signalling = (
  _,
  and_then
      (and_then
        (and_then
          (and_then
            (and_then
              (and_then
                (and_then
                  (and_then
                    (and_then
                      (and_then
                        (and_then (and_then here (main_step granted refl)) (main_step granted refl))
                        (main_step granted refl))
                      (main_step granted refl))
                    (main_step granted refl))
                  (main_step granted refl))
                (main_step granted refl))
              (main_step granted refl))
            (control_step stop refl awake refl refl))
          (handler_step refl))
        (handler_step refl))
      (handler_step refl),
)

-- The rest of the three threads.
abbrev stopping : (s : Service) × ServiceRun manager signalling.0 s
unfolding service_main service_ctrl_handler handle_control fill_status set_service_status
    service_worker_thread
stopping = (
  _,
  and_then
      (and_then
        (and_then
          (and_then
            (and_then
              (and_then
                (and_then
                  (and_then (and_then (and_then here (worker_step refl)) (handler_step refl))
                    (handler_step refl))
                  (main_step granted refl))
                (handler_step refl))
              (worker_step refl))
            (handler_step refl))
          (main_step granted refl))
        (main_step granted refl))
      (main_step granted refl),
)

abbrev all_the_way : (s : Service) × ServiceRun manager launched s
unfolding service_main service_ctrl_handler handle_control fill_status set_service_status
all_the_way = (
  _,
  and_then
      (and_then
        (and_then
          (and_then
            (and_then
              (and_then
                (and_then
                  (and_then
                    (and_then
                      (and_then
                        (and_then
                          (and_then
                            (and_then
                              (and_then
                                (and_then
                                  (and_then
                                    (and_then
                                      (and_then
                                        (and_then (and_then here (main_step granted refl))
                                          (main_step granted refl))
                                        (main_step granted refl))
                                      (main_step granted refl))
                                    (main_step granted refl))
                                  (main_step granted refl))
                                (main_step granted refl))
                              (main_step granted refl))
                            (control_step stop refl awake refl refl))
                          (handler_step refl))
                        (handler_step refl))
                      (handler_step refl))
                    (handler_step refl))
                  (handler_step refl))
                (handler_step refl))
              (handler_step refl))
            (main_step granted refl))
          (main_step granted refl))
        (main_step granted refl))
      (main_step granted refl),
)

reported_status_example :
    let s = all_the_way.0 in
    let run = all_the_way.1 in
    (is_stop_pending s.reports.reported.current_state ≡ true → stop_requested manager run ≡ true)
    × (is_stopped s.reports.reported.current_state ≡ true
        → (has_stopped s.main_at ≡ true)
          × ((s.daemon_started ≡ false)
              ⊎ ((s.daemon_started ≡ true)
                  × (s.daemon_stopped ≡ true)
                  × (stop_requested manager run ≡ true))))
reported_status_example = reported_status manager all_the_way.1

stop_ends_threads_example :
    (work_of manager stopping.1 ≤ 14)
    × (BothDone manager stopping.0 ⊎ WorkIsLeft manager stopping.0)
unfolding is_signalled signalling
stop_ends_threads_example = stop_ends_threads manager signalling.1 stopping.1 refl

waiting_can_be_stopped_example :
    let s = serving.0 in
    let run = serving.1 in
    (stop_requested manager run ≡ false
      → (is_running s.reports.reported.current_state ≡ true)
        × (s.reports.reported.accepts_stop ≡ true))
    × (stop_requested manager run ≡ true
        → (is_signalled s.stop_event || will_signal s.handler_at) ≡ true)
unfolding serving
waiting_can_be_stopped_example = waiting_can_be_stopped manager serving.1 refl

abbrev no_rights : InstallAnswers
no_rights = record { has_file_name = true; manager_opens = true; service_is_created = false }

abbrev slow_stop : UninstallAnswers
slow_stop = record {
  manager_opens = true;
  service_opens = true;
  control_answer = some stop_pending;
  queries = some stop_pending ∷ some stop_pending ∷ some stopped ∷ [];
  is_deleted = true;
}

-- `INSTALL` and `run` are taken whatever their case; a service that cannot be dispatched yields
-- the error of the dispatcher.
exit_codes :
    ((tmain true 0 (codes "INSTALL" ∷ []) ≡ 0)
      × (tmain true 0 (codes "remove" ∷ []) ≡ 1)
      × (tmain false 1063 [] ≡ 1063)
      × (tmain true 1063 [] ≡ 0))
unfolding tmain equal to_lower
exit_codes = (refl, refl, refl, refl)

abbrev last_one : Reports
last_one = record no_reports { next_check_point = 4294967295 }

-- A check point is counted for each status on the way, and wraps round.
check_points :
    ((fill_status stop_pending 0 0 last_one).service_status.check_point ≡ 4294967295)
    × ((fill_status stop_pending 0 0 last_one).next_check_point ≡ 0)
unfolding fill_status
check_points = (refl, refl)
