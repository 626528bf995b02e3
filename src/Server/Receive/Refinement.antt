-- ===== src/Server/Receive/Refinement.antt =====
-- The receive loop (src/simple-ntpd/core/server.cpp) against a description without turns and events.
use simple_ntpd.Common.{
  ℕ, zero, suc, ◌≡◌, refl, ap, ◌∙◌, Option, none, some, List, [], ◌∷◌, length, if◌then◌else◌,
  is_empty, take, Bool-cases, inl, inr,
}
use simple_ntpd.Common.Text.{Bytes}
use simple_ntpd.Common.Result.{Result, ok, exception}
use simple_ntpd.Config.{AuthAlgorithm}
use simple_ntpd.Server.{NtpServer}
use simple_ntpd.Server.Process.{Arrival, process_packet}
use simple_ntpd.Server.Receive.{
  Event, received, into_buffer, goes_on, turn, and_before, after_turn, process_incoming_packets,
}
use simple_ntpd.Server.Receive.Returns.{IsEnd, end_leaves}

-- The events of a socket that holds some datagrams, and then others.
abbrev pub followed_by : List Arrival → (ℕ → Event) → ℕ → Event
followed_by [] events i = events i
followed_by (a ∷ waiting) events zero = received a
followed_by (a ∷ waiting) events (suc i) = followed_by waiting events i

abbrev pub with_answer :
    Option Bytes → Result (NtpServer × List Bytes) → Result (NtpServer × List Bytes)
with_answer none r = r
with_answer (some datagram) exception = exception
with_answer (some datagram) (ok (s, sent)) = ok (s, datagram ∷ sent)

module _ (digest : AuthAlgorithm → Bytes → Option Bytes) (inet_pton : Bytes → Option ℕ) where
  abbrev pub and_then_all :
      Result (NtpServer × Option Bytes)
      → (NtpServer → Result (NtpServer × List Bytes))
      → Result (NtpServer × List Bytes)
  and_then_all exception more = exception
  and_then_all (ok (s, datagram)) more = with_answer datagram (more s)

  -- The datagrams one after the other, at most 48 bytes of each and none that is empty, up to the
  -- first exception: the server behind them and the answers that were sent.
  unfoldable pub process_all : List Arrival → NtpServer → Result (NtpServer × List Bytes)
  process_all [] s = ok (s, [])
  process_all (a ∷ waiting) s =
      if is_empty (take 48 a.buffer)
      then process_all waiting s
      else and_then_all (process_packet digest inet_pton (into_buffer a) s) (process_all waiting)

  before-answer :
      (datagram : Option Bytes) (r : Result (NtpServer × List Bytes))
      → and_before digest inet_pton datagram (some r) ≡ some (with_answer datagram r)
  before-answer none exception = refl
  before-answer none (ok (s, sent)) = refl
  before-answer (some datagram) exception = refl
  before-answer (some datagram) (ok (s, sent)) = refl

  after-packet :
      (r : Result (NtpServer × Option Bytes))
      (next : NtpServer → Option (Result (NtpServer × List Bytes)))
      (more : NtpServer → Result (NtpServer × List Bytes))
      → ((s : NtpServer) → next s ≡ some (more s))
      → after_turn digest inet_pton (goes_on digest inet_pton r) next ≡ some (and_then_all r more)
  after-packet exception next more same = refl
  after-packet (ok (s, datagram)) next more same =
      ap (and_before digest inet_pton datagram) (same s) ∙ before-answer datagram (more s)

  after-arrival :
      (a : Arrival) (s : NtpServer) (next : NtpServer → Option (Result (NtpServer × List Bytes)))
      (more : NtpServer → Result (NtpServer × List Bytes))
      → ((t : NtpServer) → next t ≡ some (more t))
      → after_turn digest inet_pton (turn digest inet_pton (received a) s) next
        ≡ some (
            if is_empty (take 48 a.buffer)
            then more s
            else and_then_all (process_packet digest inet_pton (into_buffer a) s) more)
  unfolding turn
  after-arrival a s next more same = elim (Bool-cases (is_empty (take 48 a.buffer))) [
    | inl nothing ↦
        rw nothing (ap (and_before digest inet_pton none) (same s) ∙ before-answer none (more s))
    | inr something ↦
        rw something
          (after-packet (process_packet digest inet_pton (into_buffer a) s) next more same)
  ]

  -- If the socket holds some datagrams and then has no data, or the workers are stopped then, the
  -- receive loop with one turn more than there are datagrams comes to what processing them one
  -- after the other comes to: those that are not empty, cut to 48 bytes, up to the first
  -- exception if any, with the server behind them and the answers in their order, and no later
  -- event is looked at.
  pub process_incoming_packets-process_all :
      (waiting : List Arrival) (events : ℕ → Event) (s : NtpServer)
      → IsEnd (events 0)
      → process_incoming_packets digest inet_pton
          (suc (length waiting))
          (followed_by waiting events)
          s
        ≡ some (process_all waiting s)
  unfolding process_incoming_packets process_all
  process_incoming_packets-process_all [] events s ended =
      ap (λ t. after_turn digest inet_pton t (λ u. none))
        (end_leaves digest inet_pton (events 0) s ended)
  process_incoming_packets-process_all (a ∷ waiting) events s ended =
      after-arrival a s
        (process_incoming_packets digest inet_pton (suc (length waiting))
          (followed_by waiting events))
        (process_all waiting) (λ t. process_incoming_packets-process_all waiting events t ended)
