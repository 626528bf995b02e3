-- ===== src/Timestamp.antt =====
-- `NtpTimestamp` (include/simple-ntpd/core/packet.hpp) and its conversions in
-- src/simple-ntpd/core/packet.cpp. A `system_clock::time_point` is the `int64_t` count of
-- nanoseconds since 1970 of libstdc++, as an integer.
pub mod Conversion
mod Runs
use simple_ntpd.Common.{ℕ, ◌+◌, ◌-◌, ◌*◌, ◌/◌, ◌%◌, ◌^◌, ◌<◌}
use simple_ntpd.Common.Int.{ℤ, ◌-ℤ◌, div_trunc, scale, to_unsigned, to_signed}

pub record NtpTimestamp : Type 0 where
  pub seconds : ℕ
  pub fraction : ℕ

-- Both fields are `uint32_t` values.
pub record IsTimestamp (t : NtpTimestamp) : Type 0 where
  pub seconds_bound : t.seconds < 2 ^ 32
  pub fraction_bound : t.fraction < 2 ^ 32

-- `NtpTimestamp()`
abbrev pub zero_timestamp : NtpTimestamp
zero_timestamp = record { seconds = 0; fraction = 0 }

-- Seconds from 1900 to 1970.
abbrev pub ntp_epoch_offset : ℕ
ntp_epoch_offset = 2208988800

abbrev pub ns_per_second : ℕ
ns_per_second = 1000000000

-- `fromSystemTime`: the arithmetic is in `uint64_t`, the results are cut to `uint32_t`.
unfoldable pub from_system_time : ℤ → NtpTimestamp
unfolding div_trunc scale to_unsigned ◌-ℤ◌
from_system_time time =
    let seconds = div_trunc time ns_per_second in
    let fraction = time -ℤ scale seconds ns_per_second in
    let ntp_fraction = to_unsigned (2 ^ 64) fraction * 4294967296 % 2 ^ 64 / 1000000000 % 2 ^ 32 in
    record {
      seconds = (to_unsigned (2 ^ 64) seconds + ntp_epoch_offset) % 2 ^ 64 % 2 ^ 32;
      fraction = ntp_fraction;
    }

-- The argument of `std::chrono::microseconds` in `toSystemTime`, a `uint64_t`.
abbrev pub total_microseconds : NtpTimestamp → ℕ
total_microseconds t =
    ((t.seconds + 2 ^ 64 - ntp_epoch_offset) % 2 ^ 64 * 1000000 % 2 ^ 64
      + t.fraction * 1000000 % 2 ^ 64 / 4294967296)
    % 2 ^ 64

-- `toSystemTime`: the count is read as `int64_t` and taken to nanoseconds.
unfoldable pub to_system_time : NtpTimestamp → ℤ
unfolding to_signed scale
to_system_time t = scale (to_signed (2 ^ 64) (total_microseconds t)) 1000
