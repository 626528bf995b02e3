-- ===== src/Service/Setup.antt =====
-- `InstallService` and `UninstallService` of deployment/windows/simple-ntpd-service.cpp: the calls
-- of the service control manager that they make, in order. What the calls answer is an argument;
-- the lines that they print are left out but for the last word on success.
pub mod Handles
use simple_ntpd.Common.{
  ℕ, Bool, true, false, not, Option, none, some, List, [], ◌∷◌, ◌++◌, if◌then◌else◌,
}
use simple_ntpd.Service.{ServiceState, unset, is_stopped, is_stop_pending}

pub data Handle : Type 0 where
  manager_handle service_handle : Handle

-- A successful open or control, a close, or another call that succeeds or fails.
pub data Call : Type 0 where
  opened closed : Handle → Call
  described asked_to_stop queried slept : Call
  deleted : Bool → Call

-- The message that ends a routine, or that of a failure on the way.
pub data Message : Type 0 where
  cannot_install open_manager_failed open_service_failed create_failed : Message
  stopped_in_time failed_to_stop delete_failed installed removed : Message

pub record Outcome : Type 0 where
  pub calls : List Call
  pub messages : List Message

pub record InstallAnswers : Type 0 where
  pub has_file_name : Bool
  pub manager_opens : Bool
  pub service_is_created : Bool

unfoldable pub install_service : InstallAnswers → Outcome
install_service a =
    if not a.has_file_name
    then record { calls = []; messages = cannot_install ∷ [] }
    else if not a.manager_opens
    then record { calls = []; messages = open_manager_failed ∷ [] }
    else if not a.service_is_created
    then record {
      calls = opened manager_handle ∷ closed manager_handle ∷ [];
      messages = create_failed ∷ [];
    }
    else record {
      calls =
          opened manager_handle
          ∷ opened service_handle
          ∷ described
          ∷ closed service_handle
          ∷ closed manager_handle
          ∷ [];
      messages = installed ∷ [];
    }

-- `control_answer` is the state that `ControlService` fills in, or `none` if it fails, and
-- `queries` what `QueryServiceStatus` answers, call by call.
pub record UninstallAnswers : Type 0 where
  pub manager_opens : Bool
  pub service_opens : Bool
  pub control_answer : Option ServiceState
  pub queries : List (Option ServiceState)
  pub is_deleted : Bool

-- The loop that waits for the end of SERVICE_STOP_PENDING: its calls and the state that it ends
-- with; a query that fails leaves the state as it was.
unfoldable pub wait_for_stop :
    ServiceState → List (Option ServiceState) → Option (List Call × ServiceState)
wait_for_stop state [] = none
wait_for_stop state (none ∷ rest) = some (queried ∷ [], state)
wait_for_stop state (some next ∷ rest) =
    let more = wait_for_stop next rest in
    if is_stop_pending next
    then elim more [ none ↦ none | some (calls, last) ↦ some (queried ∷ slept ∷ calls, last) ]
    else some (queried ∷ [], next)

-- The stop of the service, if it runs; `none` while the answers of the queries run out before
-- the loop ends.
unfoldable pub stop_service : Option ServiceState → List (Option ServiceState) → Option Outcome
stop_service none queries = some (record { calls = []; messages = [] })
stop_service (some state) queries = elim (wait_for_stop state queries) [
  | none ↦ none
  | some (calls, last) ↦ some (record {
    calls = asked_to_stop ∷ slept ∷ calls;
    messages = (if is_stopped last then stopped_in_time else failed_to_stop) ∷ [];
  })
]

unfoldable pub uninstall_service : UninstallAnswers → Option Outcome
uninstall_service a =
    if not a.manager_opens
    then some (record { calls = []; messages = open_manager_failed ∷ [] })
    else if not a.service_opens
    then some (record {
      calls = opened manager_handle ∷ closed manager_handle ∷ [];
      messages = open_service_failed ∷ [];
    })
    else elim (stop_service a.control_answer a.queries) [
      | none ↦ none
      | some stop ↦ some (record {
        calls =
            (opened manager_handle ∷ opened service_handle ∷ [])
            ++ stop.calls
            ++ (deleted a.is_deleted ∷ closed service_handle ∷ closed manager_handle ∷ []);
        messages = stop.messages ++ ((if a.is_deleted then removed else delete_failed) ∷ []);
      })
    ]
