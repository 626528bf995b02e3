-- ===== src/Exchange.antt =====
-- `NtpPacketHandler::calculateRoundTripDelay` and `calculateOffset` of
-- src/simple-ntpd/core/packet.cpp, on the four timestamps of an exchange.
pub mod Accuracy
pub mod Overflow
mod Runs
use simple_ntpd.Common.Int.{ℤ, ◌+ℤ◌, ◌-ℤ◌, div_trunc}
use simple_ntpd.Timestamp.{NtpTimestamp, to_system_time}

-- `duration_cast<microseconds>` of a count of nanoseconds
abbrev to_microseconds : ℤ → ℤ
to_microseconds d = div_trunc d 1000

-- (t4 - t1) - (t3 - t2)
unfoldable pub calculate_round_trip_delay :
    NtpTimestamp → NtpTimestamp → NtpTimestamp → NtpTimestamp → ℤ
calculate_round_trip_delay t1 t2 t3 t4 =
    let time1 = to_system_time t1 in
    let time2 = to_system_time t2 in
    let time3 = to_system_time t3 in
    let time4 = to_system_time t4 in to_microseconds (time4 -ℤ time1 -ℤ (time3 -ℤ time2))

-- ((t2 - t1) + (t3 - t4)) / 2
unfoldable pub calculate_offset : NtpTimestamp → NtpTimestamp → NtpTimestamp → NtpTimestamp → ℤ
calculate_offset t1 t2 t3 t4 =
    let time1 = to_system_time t1 in
    let time2 = to_system_time t2 in
    let time3 = to_system_time t3 in
    let time4 = to_system_time t4 in
    to_microseconds (div_trunc (time2 -ℤ time1 +ℤ (time3 -ℤ time4)) 2)
