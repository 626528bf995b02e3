-- ===== src/Packet/Wire/RoundTrip.antt =====
-- `parseFromData` and `serializeToData` undo one another.
use simple_ntpd.Common.{
  ℕ, ◌/◌, ◌^◌, ◌≤◌, ◌<◌, ◌≡◌, refl, sym, bit_and, arith, some, [], ◌∷◌, ◌++◌, take, length,
  length-append, All,
}
use simple_ntpd.Common.Int.{to_signed-to_unsigned_byte, to_unsigned-to_signed_byte}
use simple_ntpd.Common.Text.{Bytes}
use simple_ntpd.Packet.{NtpPacket, FitsWire, IsByte}
use simple_ntpd.Packet.Wire.{
  read_timestamp, packet_fields, parse_from_data, serialize_to_data, first_byte_of,
}
use simple_ntpd.Packet.Wire.Words.{first_byte_of-eq, first_byte_fields}
use simple_ntpd.Packet.Wire.Read.{read_back, timestamp_back, get_or-IsByte, Holds-self}

pub length-serialize_to_data : (p : NtpPacket) → length (serialize_to_data p) ≡ 48
unfolding serialize_to_data
length-serialize_to_data p = refl

first_byte_back :
    (p : NtpPacket)
    → FitsWire p
    → let b = first_byte_of p.leap_indicator p.version p.mode in
      (bit_and (b / 2 ^ 6) 0x3 ≡ p.leap_indicator)
      × (bit_and (b / 2 ^ 3) 0x7 ≡ p.version)
      × (bit_and b 0x7 ≡ p.mode)
first_byte_back p f =
    let b : ℕ = first_byte_of p.leap_indicator p.version p.mode in
    let eq = first_byte_of-eq p.leap_indicator p.version p.mode in
    omega (arith, eq, first_byte_fields b (omega (arith, eq)))

packet_fields-serialize :
    (p : NtpPacket) (rest : Bytes) → FitsWire p → packet_fields (serialize_to_data p ++ rest) ≡ p
unfolding packet_fields serialize_to_data
packet_fields-serialize p rest f =
    let (leap, version, mode) = first_byte_back p f in
    let buffer = serialize_to_data p ++ rest in
    λ j. record {
      leap_indicator = leap j;
      version = version j;
      mode = mode j;
      stratum = p.stratum;
      poll = p.poll;
      precision = to_signed-to_unsigned_byte p.precision f.precision_bound j;
      root_delay =
          read_back buffer 4 p.root_delay f.root_delay_bound
            (record { at_0 = refl; at_1 = refl; at_2 = refl; at_3 = refl }) j;
      root_dispersion =
          read_back buffer 8 p.root_dispersion f.root_dispersion_bound
            (record { at_0 = refl; at_1 = refl; at_2 = refl; at_3 = refl }) j;
      reference_id =
          read_back buffer 12 p.reference_id f.reference_id_bound
            (record { at_0 = refl; at_1 = refl; at_2 = refl; at_3 = refl }) j;
      reference_ts =
          timestamp_back buffer 16 p.reference_ts f.reference_fits
            (record { at_0 = refl; at_1 = refl; at_2 = refl; at_3 = refl })
            (record { at_0 = refl; at_1 = refl; at_2 = refl; at_3 = refl }) j;
      originate_ts =
          timestamp_back buffer 24 p.originate_ts f.originate_fits
            (record { at_0 = refl; at_1 = refl; at_2 = refl; at_3 = refl })
            (record { at_0 = refl; at_1 = refl; at_2 = refl; at_3 = refl }) j;
      receive_ts =
          timestamp_back buffer 32 p.receive_ts f.receive_fits
            (record { at_0 = refl; at_1 = refl; at_2 = refl; at_3 = refl })
            (record { at_0 = refl; at_1 = refl; at_2 = refl; at_3 = refl }) j;
      transmit_ts =
          timestamp_back buffer 40 p.transmit_ts f.transmit_fits
            (record { at_0 = refl; at_1 = refl; at_2 = refl; at_3 = refl })
            (record { at_0 = refl; at_1 = refl; at_2 = refl; at_3 = refl }) j;
    }

-- Parsing the 48 bytes that a packet with fields in range serializes to, whatever bytes follow
-- them, gives the packet back.
pub parse-serialize :
    (p : NtpPacket) (rest : Bytes)
    → FitsWire p
    → parse_from_data (serialize_to_data p ++ rest) ≡ some p
unfolding parse_from_data
parse-serialize p rest f = ground (
  arith,
  packet_fields-serialize p rest f,
  length-append (serialize_to_data p) rest,
  length-serialize_to_data p,
)

first_byte_kept :
    (b : ℕ)
    → b < 256
    → first_byte_of (bit_and (b / 2 ^ 6) 0x3) (bit_and (b / 2 ^ 3) 0x7) (bit_and b 0x7) ≡ b
first_byte_kept b h = omega (
  arith,
  first_byte_fields b h,
  first_byte_of-eq (bit_and (b / 2 ^ 6) 0x3) (bit_and (b / 2 ^ 3) 0x7) (bit_and b 0x7),
)

serialize-packet_fields :
    (buffer : Bytes)
    → 48 ≤ length buffer
    → All IsByte buffer
    → serialize_to_data (packet_fields buffer) ≡ take 48 buffer
unfolding serialize_to_data packet_fields read_timestamp
serialize-packet_fields
      (b0 ∷ b1 ∷ b2 ∷ b3 ∷ b4 ∷ b5 ∷ b6 ∷ b7 ∷ b8 ∷ b9 ∷ b10 ∷ b11 ∷ b12 ∷ b13 ∷ b14 ∷ b15 ∷ b16
        ∷ b17 ∷ b18 ∷ b19 ∷ b20 ∷ b21 ∷ b22 ∷ b23 ∷ b24 ∷ b25 ∷ b26 ∷ b27 ∷ b28 ∷ b29 ∷ b30 ∷ b31
        ∷ b32 ∷ b33 ∷ b34 ∷ b35 ∷ b36 ∷ b37 ∷ b38 ∷ b39 ∷ b40 ∷ b41 ∷ b42 ∷ b43 ∷ b44 ∷ b45 ∷ b46
        ∷ b47 ∷ rest)
      len bytes =
    let whole : Bytes =
      b0 ∷ b1 ∷ b2 ∷ b3 ∷ b4 ∷ b5 ∷ b6 ∷ b7 ∷ b8 ∷ b9 ∷ b10 ∷ b11 ∷ b12 ∷ b13 ∷ b14 ∷ b15 ∷ b16
      ∷ b17 ∷ b18 ∷ b19 ∷ b20 ∷ b21 ∷ b22 ∷ b23 ∷ b24 ∷ b25 ∷ b26 ∷ b27 ∷ b28 ∷ b29 ∷ b30 ∷ b31
      ∷ b32 ∷ b33 ∷ b34 ∷ b35 ∷ b36 ∷ b37 ∷ b38 ∷ b39 ∷ b40 ∷ b41 ∷ b42 ∷ b43 ∷ b44 ∷ b45 ∷ b46
      ∷ b47 ∷ rest in
    let first = first_byte_kept b0 bytes.0 in
    let precision = to_unsigned-to_signed_byte b3 (get_or-IsByte whole 3 bytes) in
    let w1 = Holds-self whole 4 bytes in
    let w2 = Holds-self whole 8 bytes in
    let w3 = Holds-self whole 12 bytes in
    let w4 = Holds-self whole 16 bytes in
    let w5 = Holds-self whole 20 bytes in
    let w6 = Holds-self whole 24 bytes in
    let w7 = Holds-self whole 28 bytes in
    let w8 = Holds-self whole 32 bytes in
    let w9 = Holds-self whole 36 bytes in
    let w10 = Holds-self whole 40 bytes in
    let w11 = Holds-self whole 44 bytes in
    λ j.
      first j
      ∷ b1
      ∷ b2
      ∷ precision j
      ∷ sym w1.at_0 j
      ∷ sym w1.at_1 j
      ∷ sym w1.at_2 j
      ∷ sym w1.at_3 j
      ∷ sym w2.at_0 j
      ∷ sym w2.at_1 j
      ∷ sym w2.at_2 j
      ∷ sym w2.at_3 j
      ∷ sym w3.at_0 j
      ∷ sym w3.at_1 j
      ∷ sym w3.at_2 j
      ∷ sym w3.at_3 j
      ∷ sym w4.at_0 j
      ∷ sym w4.at_1 j
      ∷ sym w4.at_2 j
      ∷ sym w4.at_3 j
      ∷ sym w5.at_0 j
      ∷ sym w5.at_1 j
      ∷ sym w5.at_2 j
      ∷ sym w5.at_3 j
      ∷ sym w6.at_0 j
      ∷ sym w6.at_1 j
      ∷ sym w6.at_2 j
      ∷ sym w6.at_3 j
      ∷ sym w7.at_0 j
      ∷ sym w7.at_1 j
      ∷ sym w7.at_2 j
      ∷ sym w7.at_3 j
      ∷ sym w8.at_0 j
      ∷ sym w8.at_1 j
      ∷ sym w8.at_2 j
      ∷ sym w8.at_3 j
      ∷ sym w9.at_0 j
      ∷ sym w9.at_1 j
      ∷ sym w9.at_2 j
      ∷ sym w9.at_3 j
      ∷ sym w10.at_0 j
      ∷ sym w10.at_1 j
      ∷ sym w10.at_2 j
      ∷ sym w10.at_3 j
      ∷ sym w11.at_0 j
      ∷ sym w11.at_1 j
      ∷ sym w11.at_2 j
      ∷ sym w11.at_3 j
      ∷ []
serialize-packet_fields _ len bytes = absurd (omega arith)

-- A buffer of at least 48 bytes, of exactly 48 or of more, parses to a packet that serializes to
-- the first 48 bytes of the buffer.
pub serialize-parse :
    (buffer : Bytes)
    → 48 ≤ length buffer
    → All IsByte buffer
    → (p : NtpPacket) × (parse_from_data buffer ≡ some p) × (serialize_to_data p ≡ take 48 buffer)
unfolding parse_from_data
serialize-parse buffer len bytes =
    (packet_fields buffer, ground arith, serialize-packet_fields buffer len bytes)
