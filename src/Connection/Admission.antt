-- ===== src/Connection/Admission.antt =====
-- Which packets `handlePacket` accepts, and what it changes.
use simple_ntpd.Common.{
  ℕ, ◌≤◌, ◌≡◌, ◌↔◌, ◌⊎◌, inl, inr, arith, true, false, Option, some, Option-cases, if◌then◌else◌,
}
use simple_ntpd.Common.Text.{Bytes}
use simple_ntpd.Platform.{mode_byte, client}
use simple_ntpd.Config.{AuthAlgorithm}
use simple_ntpd.Packet.{NtpPacket}
use simple_ntpd.Packet.Wire.{parse_from_data}
use simple_ntpd.Packet.Wire.Range.{parse_from_data-length}
use simple_ntpd.Packet.Validation.{is_valid}
use simple_ntpd.Packet.Validation.Laws.{IsAcceptable, is_valid_iff}
use simple_ntpd.Connection.{
  NtpConnection, validate_authentication, request_count, count_request, record_request,
  authenticate, limit_rate, check_packet, handle_packet,
}

module _ (digest : AuthAlgorithm → Bytes → Option Bytes) (minute : ℕ) (buffer : Bytes)
    (c : NtpConnection) where
  -- The packet `p` in `buffer` is one that the connection serves now.
  pub record Admissible (p : NtpPacket) : Type 0 where
    pub connected : c.active ≡ true
    pub parsed : parse_from_data buffer ≡ some p
    pub acceptable : IsAcceptable p
    pub from_client : p.mode ≡ mode_byte client
    pub within_limit :
        c.config.enable_rate_limiting ≡ true
        → request_count minute c ≤ c.config.request_rate_limit_per_minute
    pub authentic :
        c.config.enable_authentication ≡ true
        → validate_authentication digest c.config p buffer ≡ true

  check_packet_iff :
      (p : NtpPacket)
      → ((check_packet digest minute (some p) buffer c).1 ≡ true) ↔ (
          (is_valid p ≡ true)
          × (p.mode ≡ 3)
          × (c.config.enable_rate_limiting ≡ true
              → request_count minute c ≤ c.config.request_rate_limit_per_minute)
          × (c.config.enable_authentication ≡ true
              → validate_authentication digest c.config p buffer ≡ true))
  unfolding check_packet limit_rate authenticate count_request
  check_packet_iff p = ground arith

  handle_packet_parsed :
      (handle_packet digest minute buffer c).1 ≡ true
      → (c.active ≡ true)
        × ((p : NtpPacket) × (parse_from_data buffer ≡ some p)
            × ((check_packet digest minute (some p) buffer c).1 ≡ true))
  unfolding handle_packet
  handle_packet_parsed h = elim (Option-cases (parse_from_data buffer)) [
    | inl e ↦ ground arith
    | inr (p, e) ↦ (ground arith, (p, e, ground arith))
  ]

  Admissible-handled :
      (p : NtpPacket) → Admissible p → (handle_packet digest minute buffer c).1 ≡ true
  unfolding handle_packet
  Admissible-handled p a =
      let checked =
        (check_packet_iff p).1
          ((is_valid_iff p).0.1 a.acceptable, a.from_client, a.within_limit, a.authentic) in
      let long = parse_from_data-length buffer p a.parsed in
      let connected = a.connected in
      let parsed = a.parsed in rw parsed (rw connected (ground (arith, checked, long)))

  -- handle_packet accepts a buffer exactly if the connection is active, the buffer parses to an
  -- acceptable packet of mode 3, the request count stays within the limit where rate limiting is
  -- on, and the packet authenticates where authentication is on.
  pub handle_packet_iff :
      ((handle_packet digest minute buffer c).1 ≡ true) ↔ ((p : NtpPacket) × Admissible p)
  handle_packet_iff = (
    (λ h.
        let (connected, (p, parsed, checked)) = handle_packet_parsed h in
        let (valid, mode, limit, auth) = (check_packet_iff p).0 checked in
        (
          p,
          record {
            connected = connected;
            parsed = parsed;
            acceptable = (is_valid_iff p).0.0 valid;
            from_client = mode;
            within_limit = limit;
            authentic = auth;
          },
        )),
    (λ (p, a). Admissible-handled p a),
  )

  -- A rejected packet leaves the connection as it was, or changes nothing but the count of the
  -- minute.
  pub handle_packet_rejects :
      (handle_packet digest minute buffer c).1 ≡ false
      → let c' = (handle_packet digest minute buffer c).0 in
        (c' ≡ c) ⊎ (c' ≡ count_request minute c)
  unfolding handle_packet
  handle_packet_rejects h = elim (Option-cases (parse_from_data buffer)) [
    | inl e ↦ ground arith
    | inr (p, e) ↦ ground arith
  ]

  -- An accepted packet adds itself to the received packets and bytes, and to the count of the
  -- minute where rate limiting is on, and changes nothing else of the connection.
  pub handle_packet_accepts :
      (handle_packet digest minute buffer c).1 ≡ true
      → (handle_packet digest minute buffer c).0
        ≡ record_request buffer
            (if c.config.enable_rate_limiting then count_request minute c else c)
  unfolding handle_packet
  handle_packet_accepts h = elim (Option-cases (parse_from_data buffer)) [
    | inl e ↦ ground arith
    | inr (p, e) ↦ ground arith
  ]
