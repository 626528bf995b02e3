-- ===== src/Service/Ends.antt =====
-- The threads of the Windows service (deployment/windows/simple-ntpd-service.cpp): a stop ends them.
use simple_ntpd.Common.{
  ℕ, ◌+◌, ◌≡◌, ◌≤◌, ◌<◌, ◌⊎◌, inl, inr, refl, arith, Bool, true, false, sym, subst, Option-cases,
  none, some, if◌then◌else◌,
}
use simple_ntpd.Service.Threads.{
  MainAt, reporting_running, setting_running, starting_daemon, starting_worker, waiting,
  stopping_daemon, reporting_stopped, setting_stopped, returned, Control, WorkerAt, entering,
  testing_flag, waiting_a_second, ended, Service, launched, Answers, service_main, handle_control,
  service_ctrl_handler, service_worker_thread, is_signalled, signal, Manager, ServiceStep,
  main_step, handler_step, worker_step, control_step, ServiceRun, here, and_then, continues,
}
use simple_ntpd.Service.Sound.{MainSound, IsSound, run-IsSound}

-- How many steps are left, once the event is signalled.
abbrev main_left : MainAt → ℕ
main_left reporting_running = 11
main_left setting_running = 10
main_left starting_daemon = 9
main_left starting_worker = 8
main_left waiting = 4
main_left stopping_daemon = 3
main_left reporting_stopped = 2
main_left setting_stopped = 1
main_left _ = 0

abbrev worker_left : WorkerAt → ℕ
worker_left entering = 3
worker_left testing_flag = 2
worker_left waiting_a_second = 1
worker_left _ = 0

abbrev steps_left : Service → ℕ
steps_left s = main_left s.main_at + worker_left s.worker_at

abbrev is_ended : WorkerAt → Bool
is_ended ended = true
is_ended _ = false

any_answers : Answers
any_answers = record { handler_registered = true; event_created = true; last_error = 0 }

main_goes_on :
    (a : Answers) (s u : Service)
    → service_main a s ≡ some u
    → MainSound s.main_at s
    → is_signalled s.stop_event ≡ true
    → (is_signalled u.stop_event ≡ true) × (steps_left u < steps_left s)
unfolding service_main is_signalled
main_goes_on a s u e h k = ground arith

handler_keeps :
    (s u : Service)
    → service_ctrl_handler s ≡ some u
    → (u.main_at ≡ s.main_at) × (u.worker_at ≡ s.worker_at)
unfolding service_ctrl_handler
handler_keeps s u e = ground arith

handler_signalled :
    (s u : Service)
    → service_ctrl_handler s ≡ some u
    → is_signalled s.stop_event ≡ true
    → is_signalled u.stop_event ≡ true
unfolding service_ctrl_handler is_signalled signal
handler_signalled s u e k = ground arith

handler_goes_on :
    (s u : Service)
    → service_ctrl_handler s ≡ some u
    → is_signalled s.stop_event ≡ true
    → (is_signalled u.stop_event ≡ true) × (steps_left u ≡ steps_left s)
handler_goes_on s u e k =
    let (at, worker) = handler_keeps s u e in
    (handler_signalled s u e k, λ i. main_left (at i) + worker_left (worker i))

worker_goes_on :
    (s u : Service)
    → service_worker_thread s ≡ some u
    → is_signalled s.stop_event ≡ true
    → (is_signalled u.stop_event ≡ true) × (steps_left u < steps_left s)
unfolding service_worker_thread is_signalled
worker_goes_on s u e k = ground arith

both_done :
    (s : Service)
    → service_main any_answers s ≡ none
    → service_worker_thread s ≡ none
    → MainSound s.main_at s
    → is_signalled s.stop_event ≡ true
    → (s.main_at ≡ returned) × (s.worker_at ≡ ended)
unfolding service_main service_worker_thread is_signalled
both_done s e f h k = ground arith

control_goes_on :
    (c : Control) (s : Service)
    → is_signalled s.stop_event ≡ true
    → (is_signalled (handle_control c s).stop_event ≡ true)
      × (steps_left (handle_control c s) ≤ steps_left s)
unfolding handle_control
control_goes_on c s k = ground arith

module _ (m : Manager) where
  -- Whether a step is one of `ServiceMain` or of the worker thread.
  abbrev pub is_work : {s u : Service} → ServiceStep m s u → Bool
  is_work (main_step a e) = true
  is_work (worker_step e) = true
  is_work (handler_step e) = false
  is_work (control_step c i r d e) = false

  abbrev pub BothDone : Service → Type 0
  BothDone s = (s.main_at ≡ returned) × (s.worker_at ≡ ended)

  abbrev pub WorkIsLeft : Service → Type 0
  WorkIsLeft s = (u : Service) × (step : ServiceStep m s u) × (is_work step ≡ true)

  work_goes_on :
      (q : Bool) (s : Service)
      → IsSound q s
      → is_signalled s.stop_event ≡ true
      → BothDone s ⊎ WorkIsLeft s
  work_goes_on q s h k = elim (Option-cases (service_worker_thread s)) [
    | inr (u, f) ↦ inr (u, worker_step f, refl)
    | inl f ↦ elim (Option-cases (service_main any_answers s)) [
      | inr (u, e) ↦ inr (u, main_step any_answers e, refl)
      | inl e ↦ inl (both_done s e f h.main k)
    ]
  ]

  step_goes_on :
      (q : Bool) {s u : Service} (step : ServiceStep m s u)
      → IsSound q s
      → is_signalled s.stop_event ≡ true
      → (is_signalled u.stop_event ≡ true)
        × (if is_work step then steps_left u + 1 else steps_left u) ≤ steps_left s
  step_goes_on q (main_step a e) h k =
      let (signalled, less) = main_goes_on a _ _ e h.main k in (signalled, omega arith)
  step_goes_on q (handler_step e) h k =
      let (signalled, same) = handler_goes_on _ _ e k in (signalled, omega arith)
  step_goes_on q (worker_step e) h k =
      let (signalled, less) = worker_goes_on _ _ e k in (signalled, omega arith)
  step_goes_on q {s} (control_step c i r d e) h k =
      subst (λ (t : Service). (is_signalled t.stop_event ≡ true) × (steps_left t ≤ steps_left s))
        (sym e) (control_goes_on c s k)

  -- How many steps of `ServiceMain` and of the worker thread a run has.
  unfoldable pub work_of : {s u : Service} → ServiceRun m s u → ℕ
  work_of here = 0
  work_of (and_then run step) = if is_work step then work_of run + 1 else work_of run

  work-le :
      {s u : Service} (before : ServiceRun m launched s) (run : ServiceRun m s u)
      → is_signalled s.stop_event ≡ true
      → (is_signalled u.stop_event ≡ true) × (work_of run + steps_left u ≤ steps_left s)
  unfolding work_of
  work-le before here k = (k, omega arith)
  work-le before (and_then run step) k =
      let (signalled, so_far) = work-le before run k in
      let (still, less) = step_goes_on _ step (run-IsSound m (continues m before run)) signalled in
      (still, ground arith)

  steps_left-le : (s : Service) → main_left s.main_at + worker_left s.worker_at ≤ 14
  steps_left-le s = ground arith

  -- Once the event is signalled, every run that goes on from there has at most fourteen steps of
  -- ServiceMain and of the worker thread, whatever the handler does meanwhile, and where it
  -- stands either both have ended or one of the two can take a step.
  pub stop_ends_threads :
      {s u : Service} (before : ServiceRun m launched s) (run : ServiceRun m s u)
      → is_signalled s.stop_event ≡ true
      → (work_of run ≤ 14) × (BothDone u ⊎ WorkIsLeft u)
  stop_ends_threads {s} {u} before run k =
      let (signalled, bounded) = work-le before run k in
      (
        omega (arith, steps_left-le s),
        work_goes_on _ u (run-IsSound m (continues m before run)) signalled,
      )
