-- ===== src/Packet/Response/Laws.antt =====
-- What stands in a server response, as a packet and on the wire.
use simple_ntpd.Common.{
  ℕ, zero, suc, ◌+◌, ◌*◌, ◌%◌, ◌^◌, ◌≤◌, ◌<◌, ◌≡◌, refl, inr, arith, [], ◌∷◌, All, take, drop,
  bit_or, ap,
}
use simple_ntpd.Common.Bits.{bit_or_disjoint}
use simple_ntpd.Common.Text.{Bytes}
use simple_ntpd.Timestamp.Conversion.{from_system_time-IsTimestamp}
use simple_ntpd.Packet.{NtpPacket, FitsWire, IsByte}
use simple_ntpd.Packet.Wire.{serialize_to_data, octet}
use simple_ntpd.Packet.Wire.Words.{octet-eq, word}
use simple_ntpd.Packet.Validation.Laws.{IsAcceptable}
use simple_ntpd.Packet.Response.{ResponseClock, create_server_response, pack_reference_id}

pack_reference_id-lt :
    (id : Bytes) (r : ℕ) → All IsByte id → r < 2 ^ 32 → pack_reference_id r id < 2 ^ 32
unfolding pack_reference_id
pack_reference_id-lt [] r h b = b
pack_reference_id-lt (c ∷ cs) r h b =
    pack_reference_id-lt cs _ h.1 (omega (arith, bit_or_disjoint 8 (r % 2 ^ 24) c h.0, shifted))
  where
    shifted : bit_or (r * 2 ^ 8 % 2 ^ 32) c ≡ bit_or (r % 2 ^ 24 * 2 ^ 8) c
    shifted = ap (λ (t : ℕ). bit_or t c) (omega arith)

All-take : (n : ℕ) (bs : Bytes) → All IsByte bs → All IsByte (take n bs)
All-take zero bs h = tt
All-take (suc n) [] h = tt
All-take (suc n) (b ∷ bs) h = (h.0, All-take n bs h.1)

module _ (request : NtpPacket) (stratum : ℕ) (id : Bytes) (clock : ResponseClock)
    (request_fits : FitsWire request) (id_bytes : All IsByte id) where
  pub response-FitsWire : stratum < 256 → FitsWire (create_server_response request stratum id clock)
  unfolding create_server_response
  response-FitsWire h = record {
    leap_bound = omega arith;
    version_bound = omega arith;
    mode_bound = omega arith;
    stratum_bound = h;
    poll_bound = omega arith;
    precision_bound = omega arith;
    root_delay_bound = omega arith;
    root_dispersion_bound = omega arith;
    reference_id_bound = pack_reference_id-lt (take 4 id) 0 (All-take 4 id id_bytes) (omega arith);
    reference_fits = from_system_time-IsTimestamp clock.at_reference;
    originate_fits = request_fits.transmit_fits;
    receive_fits = from_system_time-IsTimestamp clock.at_receive;
    transmit_fits = from_system_time-IsTimestamp clock.at_transmit;
  }

pub response-IsAcceptable :
    (request : NtpPacket) (stratum : ℕ) (id : Bytes) (clock : ResponseClock)
    → stratum ≤ 15
    → IsAcceptable (create_server_response request stratum id clock)
unfolding create_server_response
response-IsAcceptable request stratum id clock h = record {
  version_known = inr refl;
  mode_known = omega arith;
  stratum_known = h;
  poll_low = omega arith;
  poll_high = omega arith;
  precision_low = omega arith;
  leap_known = omega arith;
}

pack_four :
    (a b c d : ℕ)
    → a < 256
    → b < 256
    → c < 256
    → d < 256
    → pack_reference_id 0 (a ∷ b ∷ c ∷ d ∷ []) ≡ word a b c d
unfolding pack_reference_id
pack_four a b c d ha hb hc hd = ground (
  arith,
  bit_or_disjoint 8 0 a ha,
  bit_or_disjoint 8 a b hb,
  bit_or_disjoint 8 (a * 256 + b) c hc,
  bit_or_disjoint 8 (a * 65536 + b * 256 + c) d hd,
)

-- The first four characters of the reference identifier are bytes 12 to 15 of the serialized
-- response, in their order.
reference_id_on_wire :
    (request : NtpPacket) (stratum a b c d : ℕ) (more : Bytes) (clock : ResponseClock)
    → a < 256
    → b < 256
    → c < 256
    → d < 256
    → take 4 (
        drop 12
          (serialize_to_data (create_server_response request stratum (a ∷ b ∷ c ∷ d ∷ more) clock)))
      ≡ a ∷ b ∷ c ∷ d ∷ []
unfolding serialize_to_data create_server_response
reference_id_on_wire request stratum a b c d more clock ha hb hc hd =
    λ j. top j ∷ high j ∷ low j ∷ bottom j ∷ []
  where
    id : ℕ
    id = pack_reference_id 0 (a ∷ b ∷ c ∷ d ∷ [])

    packed : id ≡ word a b c d
    packed = pack_four a b c d ha hb hc hd

    top : octet 24 id ≡ a
    top = omega (arith, octet-eq 24 id, packed)

    high : octet 16 id ≡ b
    high = omega (arith, octet-eq 16 id, packed)

    low : octet 8 id ≡ c
    low = omega (arith, octet-eq 8 id, packed)

    bottom : octet 0 id ≡ d
    bottom = omega (arith, octet-eq 0 id, packed)
