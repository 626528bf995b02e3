-- ===== src/Exchange/Overflow.antt =====
-- The arithmetic of the two formulas stays within `int64_t`, so no step of it is undefined.
use simple_ntpd.Common.{◌*◌, ◌^◌, ◌≤◌, ◌<◌, arith}
use simple_ntpd.Common.Int.{ℤ, pos_part, neg_part, ◌+ℤ◌, ◌-ℤ◌, IsI64, +ℤ_parts, -ℤ_parts, one_part}
use simple_ntpd.Timestamp.{NtpTimestamp, IsTimestamp, to_system_time}
use simple_ntpd.Timestamp.Conversion.{to_system_time-since_1900}

-- A system time that came from a timestamp, in nanoseconds since 1970.
abbrev InRange : ℤ → Type 0
InRange a = (pos_part a < 2085978496 * 1000000000) × (neg_part a ≤ 2208988800 * 1000000000)

to_system_time-InRange : (t : NtpTimestamp) → IsTimestamp t → InRange (to_system_time t)
to_system_time-InRange t v = omega (
  arith,
  to_system_time-since_1900 t v,
  v.fraction_bound,
  v.seconds_bound,
  one_part (to_system_time t),
)

abbrev IsSmall : ℤ → Type 0
IsSmall a = (pos_part a < 2 ^ 62) × (neg_part a < 2 ^ 62)

-ℤ-IsSmall : (a b : ℤ) → InRange a → InRange b → IsSmall (a -ℤ b)
-ℤ-IsSmall a b h k = omega (arith, -ℤ_parts a b, one_part (a -ℤ b), one_part a, one_part b)

-ℤ-IsI64 : (a b : ℤ) → IsSmall a → IsSmall b → IsI64 (a -ℤ b)
-ℤ-IsI64 a b h k = omega (arith, -ℤ_parts a b, one_part (a -ℤ b))

+ℤ-IsI64 : (a b : ℤ) → IsSmall a → IsSmall b → IsI64 (a +ℤ b)
+ℤ-IsI64 a b h k = omega (arith, +ℤ_parts a b, one_part (a +ℤ b))

small_fits : (a : ℤ) → IsSmall a → IsI64 a
small_fits a h = omega arith

-- Every intermediate count of the two formulas.
pub record Fits (time1 time2 time3 time4 : ℤ) : Type 0 where
  pub out_and_back : IsI64 (time4 -ℤ time1)
  pub at_server : IsI64 (time3 -ℤ time2)
  pub delay : IsI64 (time4 -ℤ time1 -ℤ (time3 -ℤ time2))
  pub first_leg : IsI64 (time2 -ℤ time1)
  pub second_leg : IsI64 (time3 -ℤ time4)
  pub sum : IsI64 (time2 -ℤ time1 +ℤ (time3 -ℤ time4))

-- For four timestamps all differences and sums that the calculations of delay and offset form are
-- in the range of int64_t.
exchange-Fits :
    (t1 t2 t3 t4 : NtpTimestamp)
    → IsTimestamp t1
    → IsTimestamp t2
    → IsTimestamp t3
    → IsTimestamp t4
    → Fits (to_system_time t1) (to_system_time t2) (to_system_time t3) (to_system_time t4)
exchange-Fits t1 t2 t3 t4 v1 v2 v3 v4 =
    let r1 = to_system_time-InRange t1 v1 in
    let r2 = to_system_time-InRange t2 v2 in
    let r3 = to_system_time-InRange t3 v3 in
    let r4 = to_system_time-InRange t4 v4 in
    let d41 = -ℤ-IsSmall _ _ r4 r1 in
    let d32 = -ℤ-IsSmall _ _ r3 r2 in
    let d21 = -ℤ-IsSmall _ _ r2 r1 in
    let d34 = -ℤ-IsSmall _ _ r3 r4 in
    record {
      out_and_back = small_fits _ d41;
      at_server = small_fits _ d32;
      delay = -ℤ-IsI64 _ _ d41 d32;
      first_leg = small_fits _ d21;
      second_leg = small_fits _ d34;
      sum = +ℤ-IsI64 _ _ d21 d34;
    }
