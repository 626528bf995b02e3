-- ===== src/Exchange/Runs.antt =====
-- An exchange with a clock that is two seconds ahead.
use simple_ntpd.Common.{◌≡◌, refl}
use simple_ntpd.Common.Int.{pos, ◌+ℤ◌, div_trunc, ◌-ℤ◌}
use simple_ntpd.Timestamp.{NtpTimestamp, to_system_time}
use simple_ntpd.Exchange.{calculate_offset}
use simple_ntpd.Exchange.Accuracy.{IsExchange}

abbrev t1 : NtpTimestamp
t1 = record { seconds = 3900000000; fraction = 0 }

abbrev t2 : NtpTimestamp
t2 = record { seconds = 3900000002; fraction = 2147483648 }

abbrev t3 : NtpTimestamp
t3 = record { seconds = 3900000003; fraction = 0 }

abbrev t4 : NtpTimestamp
t4 = record { seconds = 3900000002; fraction = 0 }

-- The clock is two seconds ahead; the request takes half a second and the answer one.
exchange : IsExchange t1 t2 t3 t4 (pos 2000000000) 500000000 1000000000
unfolding to_system_time ◌+ℤ◌
exchange = record { outward = refl; homeward = refl }

offset_runs : calculate_offset t1 t2 t3 t4 ≡ pos 1750000
unfolding calculate_offset to_system_time ◌+ℤ◌ ◌-ℤ◌ div_trunc
offset_runs = refl
