-- ===== src/Server/Receive.antt =====
-- `processIncomingPackets` (src/simple-ntpd/core/server.cpp): the loop of a worker over the socket,
-- with the restarts of the socket. The calls of the system answer by a sequence of events.
pub mod Restart
pub mod Returns
pub mod Refinement
use simple_ntpd.Common.{
  ℕ, zero, suc, ◌+◌, ◌%◌, ◌^◌, Bool, true, false, ◌&&◌, Option, none, some, List, [], ◌∷◌,
  if◌then◌else◌, is_empty, ltb, take,
}
use simple_ntpd.Common.Text.{Bytes}
use simple_ntpd.Common.Result.{Result, ok, exception}
use simple_ntpd.Config.{AuthAlgorithm}
use simple_ntpd.Server.{NtpServer}
use simple_ntpd.Server.Lifecycle.{SocketAnswers, close_socket}
use simple_ntpd.Server.Process.{Arrival, process_packet}

-- What one turn of the loop meets: `workers_running_` is false; no data on the non-blocking socket;
-- another error of `recvfrom`, with what the system answers to a restart; or a datagram.
pub data Event : Type 0 where
  halted no_data : Event
  failed : SocketAnswers → Event
  received : Arrival → Event

-- What it comes to: the loop is left, or goes on, with the datagram that was sent if any.
pub data Turn : Type 0 where
  leave : NtpServer → Turn
  again : NtpServer → Option Bytes → Turn

abbrev pub state_of : Turn → NtpServer
state_of (leave s) = s
state_of (again s datagram) = s

-- `initializeSocket() && bindSocket()`
unfoldable pub reopen : SocketAnswers → Option ℕ → NtpServer → Turn
reopen answers none s = leave s
reopen answers (some fd) s =
    if answers.address_known && answers.bound
    then again (record s { server_socket = some fd }) none
    else leave (record s { server_socket = some fd })

unfoldable pub restart : SocketAnswers → NtpServer → Turn
unfolding reopen
restart answers s =
    if s.config.enable_self_healing && ltb s.restart_count s.config.service_restart_limit
    then reopen answers answers.opened
        (close_socket (record s { restart_count = (s.restart_count + 1) % 2 ^ 32 }))
    else leave s

-- The buffer takes 48 bytes; what is behind them in the datagram is lost.
abbrev pub into_buffer : Arrival → Arrival
into_buffer a = record a { buffer = take 48 a.buffer }

module _ (digest : AuthAlgorithm → Bytes → Option Bytes) (inet_pton : Bytes → Option ℕ) where
  abbrev pub goes_on : Result (NtpServer × Option Bytes) → Result Turn
  goes_on exception = exception
  goes_on (ok (s, datagram)) = ok (again s datagram)

  unfoldable pub turn : Event → NtpServer → Result Turn
  unfolding restart
  turn halted s = ok (leave s)
  turn no_data s = ok (leave s)
  turn (failed answers) s = ok (restart answers s)
  turn (received a) s =
      if is_empty (take 48 a.buffer)
      then ok (again s none)
      else goes_on (process_packet digest inet_pton (into_buffer a) s)

  abbrev pub answer : Option Bytes → List Bytes → List Bytes
  answer none sent = sent
  answer (some datagram) sent = datagram ∷ sent

  abbrev pub and_before :
      Option Bytes
      → Option (Result (NtpServer × List Bytes))
      → Option (Result (NtpServer × List Bytes))
  and_before datagram (some (ok (s, sent))) = some (ok (s, answer datagram sent))
  and_before datagram r = r

  -- The state behind a turn, or the end of the loop.
  abbrev pub after_turn :
      Result Turn
      → (NtpServer → Option (Result (NtpServer × List Bytes)))
      → Option (Result (NtpServer × List Bytes))
  after_turn exception next = some exception
  after_turn (ok (leave s)) next = some (ok (s, []))
  after_turn (ok (again s datagram)) next = and_before datagram (next s)

  -- The events in their order, and the fuel for the turns; `none` is out of fuel.
  unfoldable pub process_incoming_packets :
      ℕ → (ℕ → Event) → NtpServer → Option (Result (NtpServer × List Bytes))
  unfolding turn
  process_incoming_packets zero events s = none
  process_incoming_packets (suc fuel) events s =
      after_turn (turn (events 0) s) (process_incoming_packets fuel (λ i. events (suc i)))
