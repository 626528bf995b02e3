-- ===== src/Packet/Samples.antt =====
-- A client's request and its bytes, for the runs.
use simple_ntpd.Common.{arith, [], ◌∷◌, ◌++◌, replicate}
use simple_ntpd.Common.Int.{negsuc}
use simple_ntpd.Common.Text.{Bytes}
use simple_ntpd.Packet.{NtpPacket, default_packet, FitsWire}

-- Version 4, mode 3, poll 4, precision -6, transmitted at 0xdcdcdcdc and 5 / 2 ^ 32 seconds.
abbrev pub request_bytes : Bytes
request_bytes =
    35 ∷ 0 ∷ 4 ∷ 250 ∷ (replicate 36 0 ++ (0xdc ∷ 0xdc ∷ 0xdc ∷ 0xdc ∷ 0 ∷ 0 ∷ 0 ∷ 5 ∷ []))

abbrev pub sample_request : NtpPacket
sample_request = record default_packet {
  mode = 3;
  poll = 4;
  precision = negsuc 5;
  transmit_ts = record { seconds = 0xdcdcdcdc; fraction = 5 };
}

-- A server's answer with the identifier "GPS ".
abbrev pub sample_response : NtpPacket
sample_response = record default_packet {
  mode = 4;
  stratum = 2;
  poll = 4;
  precision = negsuc 5;
  reference_id = 0x47505320;
  originate_ts = record { seconds = 0xdcdcdcdc; fraction = 5 };
}

pub sample_response-FitsWire : FitsWire sample_response
sample_response-FitsWire = record {
  leap_bound = omega arith;
  version_bound = omega arith;
  mode_bound = omega arith;
  stratum_bound = omega arith;
  poll_bound = omega arith;
  precision_bound = omega arith;
  root_delay_bound = omega arith;
  root_dispersion_bound = omega arith;
  reference_id_bound = omega arith;
  reference_fits = record { seconds_bound = omega arith; fraction_bound = omega arith };
  originate_fits = record { seconds_bound = omega arith; fraction_bound = omega arith };
  receive_fits = record { seconds_bound = omega arith; fraction_bound = omega arith };
  transmit_fits = record { seconds_bound = omega arith; fraction_bound = omega arith };
}
