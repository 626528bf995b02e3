-- ===== src/Timestamp/Runs.antt =====
-- Runs of the conversions on given times.
use simple_ntpd.Common.{◌-◌, ◌≡◌, refl, arith}
use simple_ntpd.Common.Int.{pos, negsuc, ◌+ℤ◌, ◌≤ℤ◌}
use simple_ntpd.Timestamp.{zero_timestamp, from_system_time, to_system_time}
use simple_ntpd.Timestamp.Conversion.{to_system_time-from_system_time}

unix_epoch_runs : from_system_time (pos 0) ≡ record { seconds = 2208988800; fraction = 0 }
unfolding from_system_time
unix_epoch_runs = refl

half_second_runs :
    to_system_time (record { seconds = 2208988801; fraction = 2147483648 }) ≡ pos 1500000000
unfolding to_system_time
half_second_runs = refl

before_1970_runs : to_system_time zero_timestamp ≡ negsuc (2208988800000000000 - 1)
unfolding to_system_time
before_1970_runs = refl

to_system_time-from_system_time_example :
    (to_system_time (from_system_time (pos 1700000000123456789)) ≤ℤ pos 1700000000123456789)
    × (pos 1700000000123456789
        ≤ℤ to_system_time (from_system_time (pos 1700000000123456789)) +ℤ pos 1000)
to_system_time-from_system_time_example =
    to_system_time-from_system_time 1700000000123456789 (omega arith)
