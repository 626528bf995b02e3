-- ===== src/Packet/Validation.antt =====
-- `validateDetailed`, `isValid` and the checks that they call, in src/simple-ntpd/core/packet.cpp.
pub mod Laws
use simple_ntpd.Common.{
  ℕ, ◌+◌, ◌*◌, ◌/◌, ◌%◌, ◌^◌, ◌≤◌, ◌<◌, bit_and, bit_or, List, [], ◌∷◌, ◌++◌, Option, none, some,
  Bool, true, false, get_or, set, replicate, length, ltb, ◌==◌, ◌||◌, not, if◌then◌else◌, ◌|>◌,
  take,
}
use simple_ntpd.Common.Int.{ℤ, pos, negsuc, to_signed, to_unsigned, IsI8, pos_part}
use simple_ntpd.Common.Text.{Bytes}
use simple_ntpd.Platform.{ntp_packet_size, ntp_version, mode_byte, mode_of}
use simple_ntpd.Platform.{client, server}
use simple_ntpd.Timestamp.{NtpTimestamp, IsTimestamp, zero_timestamp, from_system_time}
use simple_ntpd.Packet.{NtpPacket, default_packet, FitsWire, IsByte}

-- What `validateDetailed` reports, with the value that the message prints.
pub data PacketError : Type 0 where
  invalid_version invalid_mode invalid_stratum invalid_poll : ℕ → PacketError
  invalid_precision : ℤ → PacketError
  invalid_leap_indicator : ℕ → PacketError

-- `validateVersion`
unfoldable pub validate_version : NtpPacket → Bool
validate_version p = p.version == 3 || p.version == ntp_version

-- `validateMode`: the switch returns true at each enumerator.
unfoldable pub validate_mode : NtpPacket → Bool
validate_mode p = elim (mode_of p.mode) [ none ↦ false | some mode ↦ true ]

-- One check: on failure the message is pushed and `valid` is cleared.
unfoldable pub report : Bool → PacketError → List PacketError × Bool → List PacketError × Bool
report failed e (errors, valid) = if failed then (errors ++ (e ∷ []), false) else (errors, valid)

-- `validateDetailed`: the messages and the result.
unfoldable pub validate_detailed : NtpPacket → List PacketError × Bool
unfolding validate_version validate_mode
validate_detailed p =
    let start : List PacketError × Bool = ([], true) in
    start
    |> report (not (validate_version p)) (invalid_version p.version)
    |> report (not (validate_mode p)) (invalid_mode p.mode)
    |> report (ltb 15 p.stratum) (invalid_stratum p.stratum)
    |> report (ltb p.poll 4 || ltb 17 p.poll) (invalid_poll p.poll)
    |> report (ltb 0 (pos_part p.precision)) (invalid_precision p.precision)
    |> report (ltb 3 p.leap_indicator) (invalid_leap_indicator p.leap_indicator)

unfoldable pub is_valid : NtpPacket → Bool
unfolding validate_detailed
is_valid p = (validate_detailed p).1
