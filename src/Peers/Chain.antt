-- ===== src/Peers/Chain.antt =====
-- A daemon that has synchronised with another one (src/simple-ntpd/core/upstream_sync.cpp) and serves the
-- time itself (src/simple-ntpd/core/server.cpp).
use simple_ntpd.Common.{
  ℕ, ◌+◌, ◌*◌, ◌≤◌, ◌≡◌, ◌≢◌, sym, ap, subst, ◌∙◌, arith, true, Option, some, [], ◌∷◌,
  if◌then◌else◌, if-true, if-false, Bool-cases, inl, inr, min,
}
use simple_ntpd.Common.Int.{
  ℤ, pos, pos_part, neg_part, ◌+ℤ◌, ◌≤ℤ◌, scale, +ℤ_parts, scale_parts, one_part,
}
use simple_ntpd.Timestamp.{NtpTimestamp, from_system_time, to_system_time}
use simple_ntpd.Server.Process.{
  shift_time, is_zero, correct_times, response_packet, response_stratum,
}
use simple_ntpd.Common.Text.{Bytes}
use simple_ntpd.Config.{NtpConfig, AuthAlgorithm}
use simple_ntpd.Packet.{NtpPacket}
use simple_ntpd.Packet.Response.{ResponseClock, create_server_response}
use simple_ntpd.Upstream.{
  SyncState, Network, query_upstream_server, better, best_of, adopt, sync_once, effective_stratum,
}
use simple_ntpd.Server.{NtpServer}
use simple_ntpd.Server.Process.{Arrival}
use simple_ntpd.Peers.{Meets, Reads, query-process_packet}
use simple_ntpd.Peers.Clocks.{InEra, AreReadings, stamp, time, time_parts}

-- An integer without a negative part is a number.
as_pos : (x : ℤ) → neg_part x ≡ 0 → x ≡ pos (pos_part x)
as_pos x h = ground arith

zero_parts : (o : ℤ) → is_zero o ≡ true → (pos_part o ≡ 0) × (neg_part o ≡ 0)
unfolding is_zero
zero_parts o z = ground arith

-- Twice the time t differs from twice the reading n of a clock with theta added to it by at most
-- e + 8000 nanoseconds.
abbrev pub Near : ℕ → ℤ → ℕ → ℤ → Type 0
Near n theta e t =
    (scale t 2 ≤ℤ scale (pos n +ℤ theta) 2 +ℤ pos (e + 8000))
    × (scale (pos n +ℤ theta) 2 ≤ℤ scale t 2 +ℤ pos (e + 8000))

-- A time that is moved by o microseconds, where o is an offset known up to e and 4000 nanoseconds.
module _ (n : ℕ) (o theta : ℤ) (e : ℕ) (low : scale o 2000 ≤ℤ scale theta 2 +ℤ pos (e + 4000))
    (high : scale theta 2 ≤ℤ scale o 2000 +ℤ pos (e + 4000)) (in_era : InEra n)
    (moved_in_era : InEra (n + pos_part theta + e + 4000))
    (later : e + 8000 + neg_part theta * 2 ≤ n * 2 + pos_part theta * 2) where
  moved : ℤ
  moved = time n +ℤ scale o 1000

  moved_parts :
      (neg_part moved ≡ 0)
      × (pos_part moved * 2 + neg_part theta * 2 ≤ n * 2 + pos_part theta * 2 + e + 4000)
      × (n * 2 + pos_part theta * 2 ≤ pos_part moved * 2 + neg_part theta * 2 + e + 6000)
  unfolding moved
  moved_parts = omega (
    arith,
    +ℤ_parts (time n) (scale o 1000),
    +ℤ_parts (scale theta 2) (pos (e + 4000)),
    +ℤ_parts (scale o 2000) (pos (e + 4000)),
    scale_parts o 1000,
    scale_parts o 2000,
    scale_parts theta 2,
    time_parts n in_era,
    one_part moved,
    low,
    high,
    later,
  )

  Near-of_parts :
      (t : ℤ) (k : ℕ)
      → pos_part t ≤ k + neg_part t
      → k + neg_part t ≤ pos_part t + 1000
      → k * 2 + neg_part theta * 2 ≤ n * 2 + pos_part theta * 2 + e + 4000
      → n * 2 + pos_part theta * 2 ≤ k * 2 + neg_part theta * 2 + e + 6000
      → Near n theta e t
  Near-of_parts t k h1 h2 h3 h4 = omega (
    arith,
    +ℤ_parts (pos n) theta,
    +ℤ_parts (scale (pos n +ℤ theta) 2) (pos (e + 8000)),
    +ℤ_parts (scale t 2) (pos (e + 8000)),
    scale_parts t 2,
    scale_parts (pos n +ℤ theta) 2,
    h1,
    h2,
    h3,
    h4,
  )

  shifted : to_system_time (shift_time o (stamp n)) ≡ time (pos_part moved)
  unfolding shift_time moved
  shifted = ap (λ (x : ℤ). to_system_time (from_system_time x)) (as_pos moved moved_parts.0)

  shift_time-Near : Near n theta e (to_system_time (shift_time o (stamp n)))
  shift_time-Near =
      let (whole, below, above) = moved_parts in
      let (late, early) = time_parts (pos_part moved) (omega (arith, below, moved_in_era)) in
      subst (Near n theta e) (sym shifted)
        (Near-of_parts (time (pos_part moved)) (pos_part moved) late early below above)

  -- Without an offset the time is not moved at all.
  unmoved-Near : is_zero o ≡ true → Near n theta e (time n)
  unmoved-Near z =
      let (no_pos, no_neg) = zero_parts o z in
      let (late, early) = time_parts n in_era in
      let (below, above) : (neg_part theta * 2 ≤ pos_part theta * 2 + e + 4000)
          × (pos_part theta * 2 ≤ neg_part theta * 2 + e + 4000) =
        omega (
          arith,
          +ℤ_parts (scale theta 2) (pos (e + 4000)),
          +ℤ_parts (scale o 2000) (pos (e + 4000)),
          scale_parts o 2000,
          scale_parts theta 2,
          no_pos,
          no_neg,
          low,
          high,
        ) in
      Near-of_parts (time n) n late early (omega (arith, below)) (omega (arith, above))

-- What a round of queries with one server, which succeeds, leaves behind.
sync_once-one :
    (net : Network) (host : Bytes) (now : ℤ) (s : SyncState)
    → (query_upstream_server net host).success ≡ true
    → let learnt = (sync_once ((host, net) ∷ []) now s).0 in
      (learnt.synced ≡ true)
      × (learnt.clock_offset_us ≡ (query_upstream_server net host).offset_us)
      × (learnt.upstream_stratum ≡ (query_upstream_server net host).stratum)
unfolding sync_once best_of better adopt
sync_once-one net host now s success = ground arith

-- The receive time of a response.
corrected_receive :
    (sync : SyncState) (c : NtpConfig) (clock : ResponseClock) (request : NtpPacket)
    → (response_packet (some sync) c clock request).receive_ts ≡ (
        if is_zero sync.clock_offset_us
        then from_system_time clock.at_receive
        else shift_time sync.clock_offset_us (from_system_time clock.at_receive))
unfolding response_packet correct_times create_server_response
corrected_receive sync c clock request = ground arith

served_stratum :
    (sync : SyncState) (c : NtpConfig) (clock : ResponseClock) (request : NtpPacket)
    → sync.synced ≡ true
    → sync.upstream_stratum ≢ 0
    → (response_packet (some sync) c clock request).stratum ≡ min (sync.upstream_stratum + 1) 15
unfolding response_packet correct_times create_server_response response_stratum effective_stratum
served_stratum sync c clock request e h = ground arith

module _ (digest : AuthAlgorithm → Bytes → Option Bytes) (inet_pton : Bytes → Option ℕ)
    (net : Network) (a : Arrival) (s : NtpServer) (host : Bytes)
    (m : Meets digest inet_pton net a s) (n1 n2 n3 n4 : ℕ) (theta : ℤ) (out back : ℕ)
    (reads : Reads net a n1 n2 n3 n4) (r : AreReadings n1 n2 n3 n4 theta out back) where
  -- If a daemon makes a round of queries with one other daemon alone, the query is sent and
  -- reaches that daemon, which serves it, has no synchronisation with upstreams, a configured
  -- stratum of 1 to 15 and a reference identifier of bytes, the answer arrives, and all four
  -- readings of the clocks lie between 1970 and the end of the NTP era, then a response packet
  -- that it makes behind that round has the receive time of the other clock: for a reading n of
  -- its own clock, where n and n plus the positive part of theta plus out + back + 4000 lie in
  -- the era and twice the sum of n and theta is at least out + back + 8000, twice the receive
  -- time differs from twice that sum by at most out + back + 8000 nanoseconds. Its stratum is the
  -- other daemon's and one, at most 15.
  pub response_packet-sync_once :
      (s0 : SyncState) (now : ℤ) (c : NtpConfig) (clock : ResponseClock) (request : NtpPacket)
      (n : ℕ)
      → clock.at_receive ≡ pos n
      → InEra n
      → InEra (n + pos_part theta + (out + back) + 4000)
      → out + back + 8000 + neg_part theta * 2 ≤ n * 2 + pos_part theta * 2
      → s.config.stratum ≢ 0
      → let learnt = (sync_once ((host, net) ∷ []) now s0).0 in
        let response = response_packet (some learnt) c clock request in
        Near n theta (out + back) (to_system_time response.receive_ts)
        × (response.stratum ≡ min (s.config.stratum + 1) 15)
  response_packet-sync_once s0 now c clock request n reading in_era moved later known =
      let (success, stratum, low, high, _, _) =
        query-process_packet digest inet_pton net a s host m n1 n2 n3 n4 theta out back reads r in
      let (synced, offset, level) = sync_once-one net host now s0 success in
      let o : ℤ = (query_upstream_server net host).offset_us in
      let learnt : SyncState = (sync_once ((host, net) ∷ []) now s0).0 in
      let received : (response_packet (some learnt) c clock request).receive_ts
          ≡ (if is_zero o then stamp n else shift_time o (stamp n)) =
        corrected_receive learnt c clock request ∙ (λ j.
          if is_zero (offset j)
          then from_system_time (reading j)
          else shift_time (offset j) (from_system_time (reading j))) in
      (
        subst (λ (t : NtpTimestamp). Near n theta (out + back) (to_system_time t)) (sym received)
            (either o low high),
        served_stratum learnt c clock request synced
              (λ zero_level. known (sym stratum ∙ sym level ∙ zero_level))
            ∙ ap (λ (k : ℕ). min (k + 1) 15) (level ∙ stratum),
      )
    where
      either :
          (o : ℤ)
          → scale o 2000 ≤ℤ scale theta 2 +ℤ pos (out + back + 4000)
          → scale theta 2 ≤ℤ scale o 2000 +ℤ pos (out + back + 4000)
          → Near n theta
              (out + back)
              (to_system_time (if is_zero o then stamp n else shift_time o (stamp n)))
      either o low high = elim (Bool-cases (is_zero o)) [
        | inl z ↦
            subst (λ (t : NtpTimestamp). Near n theta (out + back) (to_system_time t))
              (sym (if-true (is_zero o) (stamp n) (shift_time o (stamp n)) z))
              (unmoved-Near n o theta (out + back) low high in_era moved later z)
        | inr z ↦
            subst (λ (t : NtpTimestamp). Near n theta (out + back) (to_system_time t))
              (sym (if-false (is_zero o) (stamp n) (shift_time o (stamp n)) z))
              (shift_time-Near n o theta (out + back) low high in_era moved later)
      ]
