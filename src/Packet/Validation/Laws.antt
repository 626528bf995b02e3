-- ===== src/Packet/Validation/Laws.antt =====
-- Which packets pass `isValid`, and what `validateDetailed` reports of the others.
use simple_ntpd.Common.{
  ◌≤◌, ◌≡◌, ◌↔◌, ◌⊎◌, refl, arith, Bool, true, false, List, [], ◌∷◌, is_empty, sym, ◌∙◌,
}
use simple_ntpd.Common.Int.{pos, ◌≤ℤ◌}
use simple_ntpd.Packet.{NtpPacket}
use simple_ntpd.Packet.Validation.{
  PacketError, validate_detailed, is_valid, validate_mode, validate_version, report,
}

-- What the program asks of a packet's fields.
pub record IsAcceptable (p : NtpPacket) : Type 0 where
  pub version_known : (p.version ≡ 3) ⊎ (p.version ≡ 4)
  pub mode_known : p.mode ≤ 7
  pub stratum_known : p.stratum ≤ 15
  pub poll_low : 4 ≤ p.poll
  pub poll_high : p.poll ≤ 17
  pub precision_low : p.precision ≤ℤ pos 0
  pub leap_known : p.leap_indicator ≤ 3

validate_mode_iff : (p : NtpPacket) → (validate_mode p ≡ true) ↔ (p.mode ≤ 7)
unfolding validate_mode
validate_mode_iff p = ground arith

validate_version_iff :
    (p : NtpPacket) → (validate_version p ≡ true) ↔ ((p.version ≡ 3) ⊎ (p.version ≡ 4))
unfolding validate_version
validate_version_iff p = ground arith

valid_iff : (p : NtpPacket) → (is_valid p ≡ true) ↔ IsAcceptable p
unfolding is_valid report
valid_iff p = ground (arith, validate_mode_iff p, validate_version_iff p)

-- The flag is set exactly as long as no message was pushed.
abbrev Agrees : List PacketError × Bool → Type 0
Agrees (errors, valid) = valid ≡ is_empty errors

report-Agrees :
    (failed : Bool) (e : PacketError) (r : List PacketError × Bool)
    → Agrees r
    → Agrees (report failed e r)
unfolding report
report-Agrees false e (errors, valid) h = h
report-Agrees true e ([], valid) h = refl
report-Agrees true e (x ∷ errors, valid) h = refl

validate_detailed-Agrees : (p : NtpPacket) → Agrees (validate_detailed p)
unfolding validate_detailed
validate_detailed-Agrees p = report-Agrees _ _ _ (
    report-Agrees _ _ _ (
      report-Agrees _ _ _
        (report-Agrees _ _ _ (report-Agrees _ _ _ (report-Agrees _ _ ([], true) refl)))))

empty_iff : (xs : List PacketError) → (is_empty xs ≡ true) ↔ (xs ≡ [])
empty_iff [] = ((λ h. refl), (λ h. refl))
empty_iff (x ∷ xs) = ((λ h. cc), (λ h. cc))

-- is_valid accepts a packet exactly if its fields are acceptable, and validate_detailed reports
-- no error exactly then.
pub is_valid_iff :
    (p : NtpPacket)
    → ((is_valid p ≡ true) ↔ IsAcceptable p) × (((validate_detailed p).0 ≡ []) ↔ IsAcceptable p)
is_valid_iff p = (valid_iff p, ((λ e. (valid_iff p).0 (to e)), (λ a. from ((valid_iff p).1 a))))
  where
    agrees : is_valid p ≡ is_empty (validate_detailed p).0
    agrees = unfold is_valid in validate_detailed-Agrees p

    to : (validate_detailed p).0 ≡ [] → is_valid p ≡ true
    to e = agrees ∙ (empty_iff _).1 e

    from : is_valid p ≡ true → (validate_detailed p).0 ≡ []
    from e = (empty_iff _).0 (sym agrees ∙ e)
