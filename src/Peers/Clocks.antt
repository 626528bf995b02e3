-- ===== src/Peers/Clocks.antt =====
-- An exchange whose times pass through NTP timestamps (src/simple-ntpd/core/packet.cpp).
use simple_ntpd.Common.{ℕ, ◌+◌, ◌-◌, ◌*◌, ◌/◌, ◌^◌, ◌<◌, ◌≤◌, ◌≡◌, arith}
use simple_ntpd.Common.Int.{
  ℤ, pos, pos_part, neg_part, ◌+ℤ◌, ◌-ℤ◌, ◌≤ℤ◌, +ℤ_parts, -ℤ_parts, one_part, scale,
  div_trunc_parts, scale_parts,
}
use simple_ntpd.Timestamp.{
  NtpTimestamp, from_system_time, to_system_time, ntp_epoch_offset, ns_per_second,
}
use simple_ntpd.Timestamp.Conversion.{to_system_time-from_system_time}
use simple_ntpd.Exchange.{calculate_offset, calculate_round_trip_delay}

-- A system time from 1970 on, within the era of the timestamps.
abbrev pub InEra : ℕ → Type 0
InEra n = n < (2 ^ 32 - ntp_epoch_offset) * ns_per_second

-- The four readings of the two clocks in nanoseconds, the second of them ahead by `theta`, over a
-- path that takes `out` nanoseconds there and `back` nanoseconds back.
pub record AreReadings (n1 n2 n3 n4 : ℕ) (theta : ℤ) (out back : ℕ) : Type 0 where
  pub in_era_1 : InEra n1
  pub in_era_2 : InEra n2
  pub in_era_3 : InEra n3
  pub in_era_4 : InEra n4
  pub outward : n2 + neg_part theta ≡ n1 + pos_part theta + out
  pub homeward : n4 + pos_part theta ≡ n3 + neg_part theta + back

abbrev pub stamp : ℕ → NtpTimestamp
stamp n = from_system_time (pos n)

-- What the querying daemon calculates from the four readings.
abbrev pub offset_of : ℕ → ℕ → ℕ → ℕ → ℤ
offset_of n1 n2 n3 n4 = calculate_offset (stamp n1) (stamp n2) (stamp n3) (stamp n4)

abbrev pub delay_of : ℕ → ℕ → ℕ → ℕ → ℤ
delay_of n1 n2 n3 n4 = calculate_round_trip_delay (stamp n1) (stamp n2) (stamp n3) (stamp n4)

-- What the reading n becomes on its way through a timestamp.
abbrev pub time : ℕ → ℤ
time n = to_system_time (stamp n)

-- It is at most 1000 nanoseconds earlier, and not later.
pub time_parts :
    (n : ℕ)
    → InEra n
    → (pos_part (time n) ≤ n + neg_part (time n))
      × (n + neg_part (time n) ≤ pos_part (time n) + 1000)
time_parts n h =
    let (late, early) = to_system_time-from_system_time n h in
    omega (arith, late, early, +ℤ_parts (time n) (pos 1000))

module _ (n1 n2 n3 n4 : ℕ) (theta : ℤ) (out back : ℕ)
    (r : AreReadings n1 n2 n3 n4 theta out back) where
  raw : ℤ
  raw = time n2 -ℤ time n1 +ℤ (time n3 -ℤ time n4)

  raw_parts :
      (pos_part raw + neg_part theta * 2 + back ≤ neg_part raw + pos_part theta * 2 + out + 2000)
      × (neg_part raw + pos_part theta * 2 + out ≤ pos_part raw + neg_part theta * 2 + back + 2000)
  unfolding raw
  raw_parts = omega (
    arith,
    +ℤ_parts,
    -ℤ_parts,
    time_parts n1 r.in_era_1,
    time_parts n2 r.in_era_2,
    time_parts n3 r.in_era_3,
    time_parts n4 r.in_era_4,
    r.outward,
    r.homeward,
  )

  offset_parts :
      (pos_part (offset_of n1 n2 n3 n4) ≡ pos_part raw / 2 / 1000)
      × (neg_part (offset_of n1 n2 n3 n4) ≡ neg_part raw / 2 / 1000)
  unfolding calculate_offset raw
  offset_parts = omega (arith, div_trunc_parts)

  offset_bounds :
      (scale (offset_of n1 n2 n3 n4) 2000 ≤ℤ scale theta 2 +ℤ pos (out + back + 4000))
      × (scale theta 2 ≤ℤ scale (offset_of n1 n2 n3 n4) 2000 +ℤ pos (out + back + 4000))
  offset_bounds = omega (
    arith,
    +ℤ_parts,
    scale_parts (offset_of n1 n2 n3 n4) 2000,
    scale_parts theta 2,
    offset_parts,
    raw_parts,
    one_part raw,
  )

  raw_delay : ℤ
  raw_delay = time n4 -ℤ time n1 -ℤ (time n3 -ℤ time n2)

  raw_delay_parts :
      (pos_part raw_delay ≤ neg_part raw_delay + out + back + 2000)
      × (neg_part raw_delay + out + back ≤ pos_part raw_delay + 2000)
  unfolding raw_delay
  raw_delay_parts = omega (
    arith,
    -ℤ_parts,
    time_parts n1 r.in_era_1,
    time_parts n2 r.in_era_2,
    time_parts n3 r.in_era_3,
    time_parts n4 r.in_era_4,
    r.outward,
    r.homeward,
  )

  delay_parts :
      (pos_part (delay_of n1 n2 n3 n4) ≡ pos_part raw_delay / 1000)
      × (neg_part (delay_of n1 n2 n3 n4) ≡ neg_part raw_delay / 1000)
  unfolding calculate_round_trip_delay raw_delay
  delay_parts = omega (arith, div_trunc_parts)

  delay_bounds :
      (scale (delay_of n1 n2 n3 n4) 1000 ≤ℤ pos (out + back + 2000))
      × (pos (out + back) ≤ℤ scale (delay_of n1 n2 n3 n4) 1000 +ℤ pos 3000)
  delay_bounds = omega (
    arith,
    +ℤ_parts,
    scale_parts (delay_of n1 n2 n3 n4) 1000,
    delay_parts,
    raw_delay_parts,
    one_part raw_delay,
  )

  -- The bounds on both results.
  pub exchange_bounds :
      (scale (offset_of n1 n2 n3 n4) 2000 ≤ℤ scale theta 2 +ℤ pos (out + back + 4000))
      × (scale theta 2 ≤ℤ scale (offset_of n1 n2 n3 n4) 2000 +ℤ pos (out + back + 4000))
      × (scale (delay_of n1 n2 n3 n4) 1000 ≤ℤ pos (out + back + 2000))
      × (pos (out + back) ≤ℤ scale (delay_of n1 n2 n3 n4) 1000 +ℤ pos 3000)
  exchange_bounds = let (o, o') = offset_bounds in let (d, d') = delay_bounds in (o, o', d, d')
