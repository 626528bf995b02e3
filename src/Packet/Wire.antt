-- ===== src/Packet/Wire.antt =====
-- `parseFromData` and `serializeToData` of src/simple-ntpd/core/packet.cpp, and the big-endian
-- helpers below them.
pub mod Words
pub mod Read
pub mod RoundTrip
pub mod Range
use simple_ntpd.Common.{
  ℕ, ◌+◌, ◌*◌, ◌/◌, ◌%◌, ◌^◌, ◌≤◌, ◌<◌, bit_and, bit_or, List, [], ◌∷◌, ◌++◌, Option, none, some,
  Bool, true, false, get_or, set, replicate, length, ltb, ◌==◌, ◌||◌, not, if◌then◌else◌, ◌|>◌,
  take,
}
use simple_ntpd.Common.Int.{ℤ, pos, negsuc, to_signed, to_unsigned, IsI8, pos_part}
use simple_ntpd.Common.Text.{Bytes}
use simple_ntpd.Platform.{ntp_packet_size, ntp_version, mode_byte, mode_of}
use simple_ntpd.Platform.{client, server}
use simple_ntpd.Timestamp.{NtpTimestamp, IsTimestamp, zero_timestamp, from_system_time}
use simple_ntpd.Packet.{NtpPacket, default_packet, FitsWire, IsByte}

-- `readU32Be(&data[i])`
unfoldable pub read_u32_be : Bytes → ℕ → ℕ
read_u32_be buffer i =
    bit_or
      (bit_or
        (bit_or (get_or buffer i 0 * 2 ^ 24 % 2 ^ 32) (get_or buffer (i + 1) 0 * 2 ^ 16 % 2 ^ 32))
        (get_or buffer (i + 2) 0 * 2 ^ 8 % 2 ^ 32))
      (get_or buffer (i + 3) 0)

-- The cast of `value >> k`, masked, that `writeU32Be` stores.
unfoldable pub octet : ℕ → ℕ → ℕ
octet k value = bit_and (value / 2 ^ k) 0xff % 256

-- `writeU32Be(&data[i], value)`
abbrev pub write_u32_be : ℕ → ℕ → Bytes → Bytes
write_u32_be i value buffer =
    set (set (set (set buffer i (octet 24 value)) (i + 1) (octet 16 value)) (i + 2) (octet 8 value))
      (i + 3) (octet 0 value)

unfoldable pub read_timestamp : Bytes → ℕ → NtpTimestamp
read_timestamp buffer i = record {
  seconds = read_u32_be buffer i;
  fraction = read_u32_be buffer (i + 4);
}

abbrev pub write_timestamp : ℕ → NtpTimestamp → Bytes → Bytes
write_timestamp i t buffer = write_u32_be (i + 4) t.fraction (write_u32_be i t.seconds buffer)

-- The assignments of `parseFromData`.
unfoldable pub packet_fields : Bytes → NtpPacket
unfolding read_timestamp
packet_fields buffer =
    let first_byte = get_or buffer 0 0 in
    record {
      leap_indicator = bit_and (first_byte / 2 ^ 6) 0x3;
      version = bit_and (first_byte / 2 ^ 3) 0x7;
      mode = bit_and first_byte 0x7;
      stratum = get_or buffer 1 0;
      poll = get_or buffer 2 0;
      precision = to_signed 256 (get_or buffer 3 0);
      root_delay = read_u32_be buffer 4;
      root_dispersion = read_u32_be buffer 8;
      reference_id = read_u32_be buffer 12;
      reference_ts = read_timestamp buffer 16;
      originate_ts = read_timestamp buffer 24;
      receive_ts = read_timestamp buffer 32;
      transmit_ts = read_timestamp buffer 40;
    }

-- `parseFromData`; behind the guard every read is within the buffer.
unfoldable pub parse_from_data : Bytes → Option NtpPacket
parse_from_data buffer =
    if ltb (length buffer) ntp_packet_size then none else some (packet_fields buffer)

-- The first byte that `serializeToData` writes.
unfoldable pub first_byte_of : ℕ → ℕ → ℕ → ℕ
first_byte_of leap_indicator version mode =
    bit_or (bit_or (bit_and leap_indicator 0x3 * 2 ^ 6) (bit_and version 0x7 * 2 ^ 3))
      (bit_and mode 0x7)
    % 256

-- `serializeToData`
unfoldable pub serialize_to_data : NtpPacket → Bytes
serialize_to_data p =
    replicate ntp_packet_size 0
    |> (λ buffer. set buffer 0 (first_byte_of p.leap_indicator p.version p.mode))
    |> (λ buffer. set buffer 1 p.stratum)
    |> (λ buffer. set buffer 2 p.poll)
    |> (λ buffer. set buffer 3 (to_unsigned 256 p.precision))
    |> write_u32_be 4 p.root_delay
    |> write_u32_be 8 p.root_dispersion
    |> write_u32_be 12 p.reference_id
    |> write_timestamp 16 p.reference_ts
    |> write_timestamp 24 p.originate_ts
    |> write_timestamp 32 p.receive_ts
    |> write_timestamp 40 p.transmit_ts
