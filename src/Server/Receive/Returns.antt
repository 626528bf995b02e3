-- ===== src/Server/Receive/Returns.antt =====
-- The receive loop (src/simple-ntpd/core/server.cpp) returns.
use simple_ntpd.Common.{
  ℕ, zero, suc, ◌+◌, ◌%◌, ◌^◌, ◌≤◌, ◌<◌, ◌≡◌, refl, ap, arith, ◌&&◌, Option, none, some, List,
  if-both, subst, ltb, Bool-cases, inl, inr,
}
use simple_ntpd.Common.Text.{Bytes}
use simple_ntpd.Common.Result.{Result, ok, exception, ok-value}
use simple_ntpd.Config.{NtpConfig, AuthAlgorithm}
use simple_ntpd.Server.{NtpServer}
use simple_ntpd.Server.Lifecycle.{SocketAnswers, close_socket}
use simple_ntpd.Server.Process.{Arrival, process_packet}
use simple_ntpd.Server.Receive.{
  into_buffer, Event, halted, no_data, failed, received, Turn, leave, again, reopen, restart, turn,
  and_before, after_turn, process_incoming_packets,
}

abbrev pub Outcome : Type 0
Outcome = Result (NtpServer × List Bytes)

-- An event that leaves the loop: the socket has no more data, or the workers are stopped.
pub data IsEnd : Event → Type 0 where
  at_halt : IsEnd halted
  at_no_data : IsEnd no_data

pub data IsFailure : Event → Type 0 where
  at_failure : (answers : SocketAnswers) → IsFailure (failed answers)

module _ (digest : AuthAlgorithm → Bytes → Option Bytes) (inet_pton : Bytes → Option ℕ) where
  Returns : ℕ → (ℕ → Event) → NtpServer → Type 0
  Returns fuel events s =
      (r : Outcome) × (process_incoming_packets digest inet_pton fuel events s ≡ some r)

  and_before_returns :
      (datagram : Option Bytes) (o : Option Outcome) (r : Outcome)
      → o ≡ some r
      → (q : Outcome) × (and_before digest inet_pton datagram o ≡ some q)
  and_before_returns datagram none r h = absurd (cc)
  and_before_returns datagram (some exception) r h = (exception, refl)
  and_before_returns datagram (some (ok (s, sent))) r h = (_, refl)

  turn_returns :
      (t : Result Turn) (next : NtpServer → Option Outcome)
      → ((s : NtpServer) (datagram : Option Bytes)
          → t ≡ ok (again s datagram)
          → (r : Outcome) × (next s ≡ some r))
      → (q : Outcome) × (after_turn digest inet_pton t next ≡ some q)
  turn_returns exception next goes = (exception, refl)
  turn_returns (ok (leave s)) next goes = (_, refl)
  turn_returns (ok (again s datagram)) next goes =
      let (r, e) = goes s datagram refl in and_before_returns datagram (next s) r e

  pub end_leaves : (e : Event) (s : NtpServer) → IsEnd e → turn digest inet_pton e s ≡ ok (leave s)
  unfolding turn
  end_leaves halted s at_halt = refl
  end_leaves no_data s at_no_data = refl
  end_leaves (failed answers) s e = elim e [ ]
  end_leaves (received a) s e = elim e [ ]

  Done : ℕ → (ℕ → Event) → NtpServer → Type 0
  Done fuel events s =
      (q : NtpServer × List Bytes) × (process_incoming_packets digest inet_pton fuel events s
        ≡ some (ok q))

  -- The loop ends in the exception of a datagram of one of the first turns, as many as `within`.
  pub record Throws (within fuel : ℕ) (events : ℕ → Event) (s : NtpServer) : Type 0 where
    pub at : ℕ
    pub is_within : at < within
    pub arrival : Arrival
    pub meets : events at ≡ received arrival
    pub server : NtpServer
    pub throws : process_packet digest inet_pton (into_buffer arrival) server ≡ exception
    pub ends : process_incoming_packets digest inet_pton fuel events s ≡ some exception

  -- The loop behind its first turn.
  abbrev next_turns : ℕ → (ℕ → Event) → NtpServer → Option Outcome
  next_turns fuel events = process_incoming_packets digest inet_pton fuel (λ i. events (suc i))

-- A restart is counted, stays within the limit and keeps the configuration.
WithinLimit : NtpServer → Turn → Type 0
WithinLimit s (leave t) = Unit
WithinLimit s (again t datagram) =
    (s.restart_count < s.config.service_restart_limit)
    × (t.restart_count ≡ (s.restart_count + 1) % 2 ^ 32)
    × (t.config ≡ s.config)

reopen-WithinLimit :
    (answers : SocketAnswers) (o : Option ℕ) (s : NtpServer)
    → s.restart_count < s.config.service_restart_limit
    → WithinLimit s (
        reopen answers o
          (close_socket (record s { restart_count = (s.restart_count + 1) % 2 ^ 32 })))
unfolding reopen WithinLimit
reopen-WithinLimit answers none s below = tt
reopen-WithinLimit answers (some fd) s below =
    if-both (WithinLimit s) (answers.address_known && answers.bound) _ _ (below, refl, refl) tt

restart-WithinLimit : (answers : SocketAnswers) (s : NtpServer) → WithinLimit s (restart answers s)
unfolding restart WithinLimit
restart-WithinLimit answers s =
    elim (Bool-cases
      (s.config.enable_self_healing && ltb s.restart_count s.config.service_restart_limit)) [
        | inl healing ↦
            rw healing (reopen-WithinLimit answers answers.opened s (ground (arith, healing)))
        | inr broken ↦ rw broken tt
      ]

module _ (digest : AuthAlgorithm → Bytes → Option Bytes) (inet_pton : Bytes → Option ℕ) where
  failure_counts :
      (e : Event) (s t : NtpServer) (datagram : Option Bytes)
      → IsFailure e
      → turn digest inet_pton e s ≡ ok (again t datagram)
      → WithinLimit s (again t datagram)
  unfolding turn
  failure_counts (failed answers) s t datagram f h =
      subst (WithinLimit s) (ok-value h) (restart-WithinLimit answers s)
  failure_counts halted s t datagram f h = elim f [ ]
  failure_counts no_data s t datagram f h = elim f [ ]
  failure_counts (received a) s t datagram f h = elim f [ ]

  -- If every turn meets an error of the socket and the restart limit is a 32-bit number, then the
  -- receive loop returns after at most as many turns as restarts are left and one more.
  pub process_incoming_packets-gives_up :
      (n : ℕ) (events : ℕ → Event) (s : NtpServer)
      → ((i : ℕ) → IsFailure (events i))
      → s.config.service_restart_limit < 2 ^ 32
      → s.config.service_restart_limit ≤ s.restart_count + n
      → (r : Outcome) × (process_incoming_packets digest inet_pton (suc n) events s ≡ some r)
  unfolding process_incoming_packets WithinLimit
  process_incoming_packets-gives_up zero events s failing small enough =
      turn_returns digest inet_pton (turn digest inet_pton (events 0) s) (λ t. none)
        (λ t datagram e.
          let (below, _, _) = failure_counts (events 0) s t datagram (failing 0) e in
          absurd (omega (arith, below, enough)))
  process_incoming_packets-gives_up (suc n) events s failing small enough =
      turn_returns digest inet_pton (turn digest inet_pton (events 0) s)
        (process_incoming_packets digest inet_pton (suc n) (λ i. events (suc i)))
        (λ t datagram e.
          let (below, counted, same) = failure_counts (events 0) s t datagram (failing 0) e in
          let limit : t.config.service_restart_limit ≡ s.config.service_restart_limit =
            ap (λ (c : NtpConfig). c.service_restart_limit) same in
          process_incoming_packets-gives_up n (λ i. events (suc i)) t (λ i. failing (suc i))
            (omega (arith, limit, small)) (omega (arith, limit, counted, below, small, enough)))
