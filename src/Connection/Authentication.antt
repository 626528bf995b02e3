-- ===== src/Connection/Authentication.antt =====
-- What `validateAuthentication` asks of a packet.
use simple_ntpd.Common.{
  ◌≤◌, ◌≡◌, ◌≢◌, ◌↔◌, ◌⊎◌, inl, refl, arith, Bool, true, false, not, Option, none, some, List, [],
  ◌∷◌, ◌++◌, length, is_empty, if◌then◌else◌, ap, sym, ◌∙◌,
}
use simple_ntpd.Common.Text.{Bytes}
use simple_ntpd.Config.{NtpConfig, AuthAlgorithm}
use simple_ntpd.Packet.{NtpPacket}
use simple_ntpd.Packet.Wire.{read_u32_be}
use simple_ntpd.Connection.{
  algo_prefix, key_material, check_marker, hashed, validate_authentication,
}

-- The digest can be used and its first four bytes are `reference_id`, or `reference_id` is 0.
pub record Marks (packet : NtpPacket) (digest : Bytes) : Type 0 where
  pub long_enough : 4 ≤ length digest
  pub marker_set : read_u32_be digest 0 ≢ 0
  pub marked : (packet.reference_id ≡ 0) ⊎ (packet.reference_id ≡ read_u32_be digest 0)

check_marker_iff :
    (packet : NtpPacket) (d : Bytes) → (check_marker packet (some d) ≡ true) ↔ Marks packet d
unfolding check_marker
check_marker_iff packet d = ground arith

gate_iff {ℓ} :
    {A : Type ℓ} (xs : List A) (b : Bool)
    → ((if is_empty xs then false else b) ≡ true) ↔ ((xs ≢ []) × (b ≡ true))
gate_iff [] b = ((λ h. cc), (λ (h, e). absurd (h refl)))
gate_iff (x ∷ xs) b = ((λ h. ((λ e. cc), h)), (λ (h, e). e))

check_marker-some :
    (packet : NtpPacket) (o : Option Bytes)
    → check_marker packet o ≡ true
    → (d : Bytes) × (o ≡ some d) × Marks packet d
unfolding check_marker
check_marker-some packet none h = cc
check_marker-some packet (some d) h = (d, refl, (check_marker_iff packet d).0 h)

-- What `validateAuthentication` takes the marker from.
abbrev pub packet_digest :
    (AuthAlgorithm → Bytes → Option Bytes) → NtpConfig → Bytes → Bytes → Option Bytes
packet_digest digest config raw prefix =
    digest config.authentication_algorithm (prefix ++ (raw ++ key_material config))

module _ (digest : AuthAlgorithm → Bytes → Option Bytes) (config : NtpConfig) (raw : Bytes)
    (packet : NtpPacket) (prefix : Bytes) (on : config.enable_authentication ≡ true)
    (algo : algo_prefix config.authentication_algorithm ≡ some prefix) where
  validate_authentication-hashed : validate_authentication digest config packet raw ≡ (
      if is_empty (key_material config)
      then false
      else check_marker packet (packet_digest digest config raw prefix))
  unfolding validate_authentication
  validate_authentication-hashed =
      ap
        (λ b.
          if not b
          then true
          else if is_empty (key_material config)
          then false
          else hashed digest config packet raw (algo_prefix config.authentication_algorithm))
        on
      ∙ ap
          (λ o. if is_empty (key_material config) then false else hashed digest config packet raw o)
          algo

  -- With authentication on and a hashing algorithm, a packet authenticates exactly if there is a
  -- key and the digest of prefix, packet and key is made and marks the packet: it has at least
  -- four bytes, the first four read as a number other than 0, and the reference identifier is 0
  -- or that number.
  pub authentication_iff : (validate_authentication digest config packet raw ≡ true) ↔ (
      (key_material config ≢ [])
      × ((d : Bytes) × ((packet_digest digest config raw prefix) ≡ some d) × Marks packet d))
  authentication_iff = (
    (λ h.
        let (keyed, marked) = (gate_iff _ _).0 (sym validate_authentication-hashed ∙ h) in
        (keyed, check_marker-some packet (packet_digest digest config raw prefix) marked)),
    (λ (keyed, (d, made, marks)).
        validate_authentication-hashed
        ∙ (gate_iff _ _).1 (keyed, rw made ((check_marker_iff packet d).1 marks))),
  )

  -- With authentication on and a hashing algorithm, a packet whose reference identifier is 0
  -- authenticates whatever the key is, as long as there is one and the digest has at least four
  -- bytes, the first four not all 0.
  zero_id_passes :
      (d : Bytes)
      → packet.reference_id ≡ 0
      → key_material config ≢ []
      → (packet_digest digest config raw prefix) ≡ some d
      → 4 ≤ length d
      → read_u32_be d 0 ≢ 0
      → validate_authentication digest config packet raw ≡ true
  zero_id_passes d zero keyed made long nonzero =
      authentication_iff.1
        (keyed, (d, made, record { long_enough = long; marker_set = nonzero; marked = inl zero }))
