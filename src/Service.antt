-- ===== src/Service.antt =====
-- The Windows service (deployment/windows/simple-ntpd-service.cpp): the status that is reported to
-- the service control manager, `ReportSvcStatus`, and the exit code of `_tmain`. What the manager
-- and the Windows calls answer are arguments.
pub mod Threads
pub mod Setup
mod Sound
mod Stoppable
mod Ends
mod Runs
use simple_ntpd.Common.{
  ℕ, ◌+◌, ◌%◌, ◌^◌, Bool, true, false, not, ◌&&◌, ◌||◌, List, [], ◌∷◌, ltb, if◌then◌else◌, map,
}
use simple_ntpd.Common.Text.{Bytes, codes, equal, to_lower}

-- The values of `dwCurrentState`; `unset` is the 0 of a status that was never filled in.
pub data ServiceState : Type 0 where
  unset start_pending running stop_pending stopped : ServiceState

abbrev pub is_start_pending : ServiceState → Bool
is_start_pending start_pending = true
is_start_pending _ = false

abbrev pub is_stop_pending : ServiceState → Bool
is_stop_pending stop_pending = true
is_stop_pending _ = false

abbrev pub is_running : ServiceState → Bool
is_running running = true
is_running _ = false

abbrev pub is_stopped : ServiceState → Bool
is_stopped stopped = true
is_stopped _ = false

-- `SERVICE_STATUS`; `accepts_stop` is `dwControlsAccepted`, SERVICE_ACCEPT_STOP or 0.
pub record ServiceStatus : Type 0 where
  pub current_state : ServiceState
  pub win32_exit_code : ℕ
  pub wait_hint : ℕ
  pub accepts_stop : Bool
  pub check_point : ℕ

abbrev pub no_status : ServiceStatus
no_status = record {
  current_state = unset;
  win32_exit_code = 0;
  wait_hint = 0;
  accepts_stop = false;
  check_point = 0;
}

-- `g_ServiceStatus`, the counter of `ReportSvcStatus`, and the last status that was reported.
pub record Reports : Type 0 where
  pub service_status : ServiceStatus
  pub next_check_point : ℕ
  pub reported : ServiceStatus

abbrev pub no_reports : Reports
no_reports = record { service_status = no_status; next_check_point = 1; reported = no_status }

unfoldable pub service_status_of : ServiceState → ℕ → ℕ → ℕ → ServiceStatus
service_status_of state exit_code hint counter = record {
  current_state = state;
  win32_exit_code = exit_code;
  wait_hint = hint;
  accepts_stop = not (is_start_pending state);
  check_point = if is_running state || is_stopped state then 0 else counter;
}

-- `ReportSvcStatus` up to its last statement; the counter is a `DWORD`.
unfoldable pub fill_status : ServiceState → ℕ → ℕ → Reports → Reports
unfolding service_status_of
fill_status state exit_code hint r = record r {
  service_status = service_status_of state exit_code hint r.next_check_point;
  next_check_point =
      if is_running state || is_stopped state
      then r.next_check_point
      else (r.next_check_point + 1) % 2 ^ 32;
}

-- `SetServiceStatus(g_StatusHandle, &g_ServiceStatus)`
unfoldable pub set_service_status : Reports → Reports
set_service_status r = record r { reported = r.service_status }

-- `lstrcmpi(a, b) == 0`, on ASCII
abbrev pub same_word : Bytes → Bytes → Bool
same_word a b = equal (map to_lower a) (map to_lower b)

-- What `_tmain` does for its arguments behind the program's name.
pub data Command : Type 0 where
  install uninstall console usage dispatch : Command

unfoldable pub command_of : List Bytes → Command
command_of [] = dispatch
command_of (word ∷ rest) =
    if same_word word (codes "install")
    then install
    else if same_word word (codes "uninstall")
    then uninstall
    else if same_word word (codes "run")
    then console
    else usage

-- The exit code of `_tmain`; `dispatched` is what `StartServiceCtrlDispatcher` answers, and
-- `last_error` what `GetLastError` does then.
unfoldable pub tmain : Bool → ℕ → List Bytes → ℕ
unfolding command_of
tmain dispatched last_error args = elim (command_of args) [
  | install ↦ 0
  | uninstall ↦ 0
  | console ↦ 0
  | usage ↦ 1
  | dispatch ↦ if dispatched then 0 else last_error
]
