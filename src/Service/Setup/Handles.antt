-- ===== src/Service/Setup/Handles.antt =====
-- `InstallService` and `UninstallService` of deployment/windows/simple-ntpd-service.cpp: the handles
-- that they hold.
use simple_ntpd.Common.{
  ◌≡◌, inl, inr, refl, arith, Bool, true, false, not, ◌||◌, ◌&&◌, ◌↔◌, Option, none, some, List, [],
  ◌∷◌, ◌++◌, if◌then◌else◌, Bool-cases,
}
use simple_ntpd.Service.{ServiceState, is_stop_pending}
use simple_ntpd.Service.Setup.{
  Handle, manager_handle, service_handle, Call, opened, closed, described, asked_to_stop, queried,
  slept, deleted, Message, removed, delete_failed, installed, Outcome, InstallAnswers,
  install_service, UninstallAnswers, wait_for_stop, stop_service, uninstall_service,
}

-- The open handles after a call, the last one first; `none` if the call has no right to them.
abbrev use_handles : Call → List Handle → Option (List Handle)
use_handles (opened manager_handle) [] = some (manager_handle ∷ [])
use_handles (opened service_handle) (manager_handle ∷ []) =
    some (service_handle ∷ manager_handle ∷ [])
use_handles (closed manager_handle) (manager_handle ∷ []) = some []
use_handles (closed service_handle) (service_handle ∷ manager_handle ∷ []) =
    some (manager_handle ∷ [])
use_handles slept held = some held
use_handles described (service_handle ∷ held) = some (service_handle ∷ held)
use_handles asked_to_stop (service_handle ∷ held) = some (service_handle ∷ held)
use_handles queried (service_handle ∷ held) = some (service_handle ∷ held)
use_handles (deleted ok) (service_handle ∷ held) = some (service_handle ∷ held)
use_handles _ _ = none

unfoldable pub held_after : List Call → List Handle → Option (List Handle)
held_after [] held = some held
held_after (c ∷ cs) held = elim (use_handles c held) [
  | none ↦ none
  | some held' ↦ held_after cs held'
]

-- Some query fails or answers another state than SERVICE_STOP_PENDING.
unfoldable pub comes_to_an_end : List (Option ServiceState) → Bool
comes_to_an_end [] = false
comes_to_an_end (none ∷ rest) = true
comes_to_an_end (some next ∷ rest) = not (is_stop_pending next) || comes_to_an_end rest

unfoldable pub last_message : List Message → Option Message
last_message [] = none
last_message (m ∷ []) = some m
last_message (m ∷ n ∷ rest) = last_message (n ∷ rest)

last_message-append :
    (messages : List Message) (m : Message) → last_message (messages ++ m ∷ []) ≡ some m
unfolding last_message
last_message-append [] m = refl
last_message-append (a ∷ []) m = refl
last_message-append (a ∷ b ∷ rest) m = last_message-append (b ∷ rest) m

last_word : (b : Bool) → (some (if b then removed else delete_failed) ≡ some removed) ↔ (b ≡ true)
last_word b = ground arith

abbrev both_held : List Handle
both_held = service_handle ∷ manager_handle ∷ []

-- What follows a list of calls that are made with both handles held.
Keeps : List Call → Type 0
Keeps calls = (rest : List Call) → held_after (calls ++ rest) both_held ≡ held_after rest both_held

wait_for_stop-Keeps :
    (state : ServiceState) (queries : List (Option ServiceState))
    → comes_to_an_end queries ≡ true
    → (r : List Call × ServiceState) × (wait_for_stop state queries ≡ some r) × Keeps r.0
unfolding wait_for_stop comes_to_an_end held_after Keeps
wait_for_stop-Keeps state [] e = absurd (cc)
wait_for_stop-Keeps state (none ∷ rest) e = (_, refl, λ more. refl)
wait_for_stop-Keeps state (some next ∷ rest) e = elim (Bool-cases (is_stop_pending next)) [
  | inr other ↦ rw other (_, refl, λ more. refl)
  | inl pending ↦
      let ((calls, last), waited, keeps) =
        wait_for_stop-Keeps next rest (ground (arith, e, pending)) in
      rw (pending, waited) ((queried ∷ slept ∷ calls, last), refl, λ more. keeps more)
]

stop_service-Keeps :
    (control : Option ServiceState) (queries : List (Option ServiceState))
    → comes_to_an_end queries ≡ true
    → (o : Outcome) × (stop_service control queries ≡ some o) × Keeps o.calls
unfolding stop_service held_after Keeps
stop_service-Keeps none queries e = (_, refl, λ more. refl)
stop_service-Keeps (some state) queries e =
    let ((calls, last), waited, keeps) = wait_for_stop-Keeps state queries e in
    rw (stop_service, waited) (_, refl, λ more. keeps more)

-- An installation makes its calls with the handles that they need and closes every handle that
-- it opens, and it ends with the message of success exactly if every call succeeded.
install_service-held_after :
    (a : InstallAnswers)
    → (held_after (install_service a).calls [] ≡ some [])
      × (((install_service a).messages ≡ installed ∷ [])
          ↔ (a.has_file_name && a.manager_opens && a.service_is_created ≡ true))
unfolding install_service held_after
install_service-held_after a = ground arith

-- If some answer to the queries is a failure or another state than SERVICE_STOP_PENDING, a
-- removal comes to an end; it makes its calls with the handles that they need and closes every
-- handle that it opens, and its last message is that of success exactly if both handles were
-- opened and the service was deleted.
uninstall_service-held_after :
    (a : UninstallAnswers)
    → comes_to_an_end a.queries ≡ true
    → (o : Outcome) × (uninstall_service a ≡ some o)
      × (held_after o.calls [] ≡ some [])
      × ((last_message o.messages ≡ some removed)
          ↔ (a.manager_opens && a.service_opens && a.is_deleted ≡ true))
unfolding uninstall_service held_after Keeps last_message
uninstall_service-held_after a e =
    let (stop, stopped, keeps) = stop_service-Keeps a.control_answer a.queries e in
    elim (Bool-cases a.manager_opens) [
      | inr no_manager ↦ rw no_manager (_, refl, refl, ground arith)
      | inl manager ↦ elim (Bool-cases a.service_opens) [
        | inr no_service ↦ rw (manager, no_service) (_, refl, refl, ground arith)
        | inl service ↦
            rw (manager, service, stopped)
              (_, refl, keeps _, rw (last_message-append stop.messages _) (last_word a.is_deleted))
      ]
    ]
