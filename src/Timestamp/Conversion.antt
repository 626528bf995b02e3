-- ===== src/Timestamp/Conversion.antt =====
-- What the conversions between NTP time and system time keep.
use simple_ntpd.Common.{ℕ, ◌+◌, ◌-◌, ◌*◌, ◌/◌, ◌^◌, ◌<◌, ◌≡◌, arith}
use simple_ntpd.Common.Int.{ℤ, pos, pos_part, neg_part, ◌+ℤ◌, ◌≤ℤ◌}
use simple_ntpd.Timestamp.{
  NtpTimestamp, IsTimestamp, ntp_epoch_offset, ns_per_second, from_system_time, to_system_time,
}

-- The nanoseconds since 1900 that a timestamp stands for, whole microseconds only.
abbrev pub since_1900 : NtpTimestamp → ℕ
since_1900 t = t.seconds * ns_per_second + t.fraction * 1000000 / 4294967296 * 1000

-- The system time of a timestamp plus the seconds from 1900 to 1970 is the timestamp's time since
-- 1900 in whole microseconds, also before 1970.
pub to_system_time-since_1900 :
    (t : NtpTimestamp)
    → IsTimestamp t
    → pos_part (to_system_time t) + ntp_epoch_offset * ns_per_second
      ≡ since_1900 t + neg_part (to_system_time t)
unfolding to_system_time
to_system_time-since_1900 t v = ground arith

pub from_system_time-IsTimestamp : (t : ℤ) → IsTimestamp (from_system_time t)
unfolding from_system_time
from_system_time-IsTimestamp t = ground arith

-- A system time from 1970 on, before the seconds of the era run out, comes back from a timestamp
-- at most 1000 nanoseconds earlier and never later.
pub to_system_time-from_system_time :
    (n : ℕ)
    → n < (2 ^ 32 - ntp_epoch_offset) * ns_per_second
    → (to_system_time (from_system_time (pos n)) ≤ℤ pos n)
      × (pos n ≤ℤ to_system_time (from_system_time (pos n)) +ℤ pos 1000)
unfolding to_system_time from_system_time ◌+ℤ◌
to_system_time-from_system_time n h = ground arith

-- A system time from 1970 on and the one 2 ^ 32 seconds later have the same timestamp.
next_era : (n : ℕ) → from_system_time (pos (n + 2 ^ 32 * ns_per_second)) ≡ from_system_time (pos n)
unfolding from_system_time
next_era n = ground arith
