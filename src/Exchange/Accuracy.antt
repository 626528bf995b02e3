-- ===== src/Exchange/Accuracy.antt =====
-- How far the computed offset and delay are from the true ones, and that nothing overflows.
use simple_ntpd.Common.{ℕ, ◌+◌, ◌*◌, ◌/◌, ap, ◌≡◌, arith}
use simple_ntpd.Common.Int.{
  ℤ, pos, pos_part, neg_part, ◌+ℤ◌, ◌-ℤ◌, ◌≤ℤ◌, +ℤ_parts, -ℤ_parts, one_part, eq_of_parts,
  div_trunc, scale, div_trunc_parts, scale_parts,
}
use simple_ntpd.Timestamp.{NtpTimestamp, to_system_time}
use simple_ntpd.Exchange.{calculate_round_trip_delay, calculate_offset}

-- The four clock readings of an exchange with a server whose clock is ahead by `theta`, over a
-- path that takes `out` nanoseconds there and `back` nanoseconds back.
pub record IsExchange (t1 t2 t3 t4 : NtpTimestamp) (theta : ℤ) (out back : ℕ) : Type 0 where
  pub outward : to_system_time t2 ≡ to_system_time t1 +ℤ theta +ℤ pos out
  pub homeward : to_system_time t4 +ℤ theta ≡ to_system_time t3 +ℤ pos back

module _ (t1 t2 t3 t4 : NtpTimestamp) (theta : ℤ) (out back : ℕ)
    (e : IsExchange t1 t2 t3 t4 theta out back) where
  path_facts :
      (pos_part (to_system_time t2) + neg_part (to_system_time t1) + neg_part theta
        ≡ neg_part (to_system_time t2) + pos_part (to_system_time t1) + pos_part theta + out)
      × (pos_part (to_system_time t4) + neg_part (to_system_time t3) + pos_part theta
          ≡ neg_part (to_system_time t4) + pos_part (to_system_time t3) + neg_part theta + back)
  path_facts = omega (
    arith,
    +ℤ_parts,
    ap pos_part e.outward,
    ap neg_part e.outward,
    ap pos_part e.homeward,
    ap neg_part e.homeward,
  )

  raw_delay :
      to_system_time t4 -ℤ to_system_time t1 -ℤ (to_system_time t3 -ℤ to_system_time t2)
      ≡ pos (out + back)
  raw_delay = eq_of_parts _ _ (omega (arith, -ℤ_parts, path_facts))

  -- For an exchange of timestamps with a clock that differs by theta nanoseconds and delays of
  -- out and back nanoseconds, the calculated round trip delay is (out + back) / 1000, whatever
  -- theta is.
  delay_is_path : calculate_round_trip_delay t1 t2 t3 t4 ≡ pos ((out + back) / 1000)
  unfolding calculate_round_trip_delay div_trunc
  delay_is_path = rw raw_delay

  raw_offset : ℤ
  raw_offset = to_system_time t2 -ℤ to_system_time t1 +ℤ (to_system_time t3 -ℤ to_system_time t4)

  raw_offset_parts :
      pos_part raw_offset + neg_part theta * 2 + back
      ≡ neg_part raw_offset + pos_part theta * 2 + out
  unfolding raw_offset
  raw_offset_parts = omega (arith, +ℤ_parts, -ℤ_parts, path_facts)

  offset_parts :
      (pos_part (calculate_offset t1 t2 t3 t4) ≡ pos_part raw_offset / 2 / 1000)
      × (neg_part (calculate_offset t1 t2 t3 t4) ≡ neg_part raw_offset / 2 / 1000)
  unfolding calculate_offset raw_offset
  offset_parts = omega (arith, div_trunc_parts)

  -- For an exchange of timestamps with a clock that differs by theta nanoseconds and delays of
  -- out and back nanoseconds, twice the calculated offset in nanoseconds differs from twice theta
  -- by at most out + back + 2000.
  offset_error :
      (scale (calculate_offset t1 t2 t3 t4) 2000 ≤ℤ scale theta 2 +ℤ pos (out + back + 2000))
      × (scale theta 2 ≤ℤ scale (calculate_offset t1 t2 t3 t4) 2000 +ℤ pos (out + back + 2000))
  offset_error = omega (
    arith,
    +ℤ_parts,
    scale_parts (calculate_offset t1 t2 t3 t4) 2000,
    scale_parts theta 2,
    offset_parts,
    raw_offset_parts,
    one_part raw_offset,
  )
