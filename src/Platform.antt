-- ===== src/Platform.antt =====
-- The enumerations and constants of include/simple-ntpd/utils/platform.hpp.
use simple_ntpd.Common.{ℕ, ◌==◌, if◌then◌else◌, Option, none, some}

abbrev pub ntp_packet_size : ℕ
ntp_packet_size = 48

abbrev pub ntp_version : ℕ
ntp_version = 4

pub data NtpMode : Type 0 where
  reserved symmetric_active symmetric_passive client server broadcast : NtpMode
  ntp_control_message reserved_private : NtpMode

-- `static_cast<uint8_t>(mode)`
abbrev pub mode_byte : NtpMode → ℕ
mode_byte reserved = 0
mode_byte symmetric_active = 1
mode_byte symmetric_passive = 2
mode_byte client = 3
mode_byte server = 4
mode_byte broadcast = 5
mode_byte ntp_control_message = 6
mode_byte reserved_private = 7

-- The enumerator, if any, that `static_cast<NtpMode>(byte)` equals.
abbrev pub mode_of : ℕ → Option NtpMode
mode_of b =
    if b == 0
    then some reserved
    else if b == 1
    then some symmetric_active
    else if b == 2
    then some symmetric_passive
    else if b == 3
    then some client
    else if b == 4
    then some server
    else if b == 5
    then some broadcast
    else if b == 6
    then some ntp_control_message
    else if b == 7
    then some reserved_private
    else none

-- `NtpStratum` has `uint8_t` values; 4 to 15 have no name of their own.
abbrev pub unspecified : ℕ
unspecified = 0

abbrev pub primary_reference : ℕ
primary_reference = 1

abbrev pub secondary_reference : ℕ
secondary_reference = 2
