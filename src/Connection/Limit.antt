-- ===== src/Connection/Limit.antt =====
-- The request-rate limit over a series of packets within one minute.
use simple_ntpd.Common.{
  ℕ, ◌+◌, ◌-◌, ◌^◌, ◌≤◌, ◌<◌, ◌≡◌, ◌⊎◌, inl, inr, refl, ap, arith, Bool, true, Option, List, [],
  ◌∷◌, ◌∙◌, length, if◌then◌else◌, Bool-cases,
}
use simple_ntpd.Common.Text.{Bytes}
use simple_ntpd.Common.Map.{lookup, lookup-insert_self, nat_eq}
use simple_ntpd.Config.{AuthAlgorithm}
use simple_ntpd.Connection.{
  NtpConnection, count_of, request_count, count_request, record_request, handle_packet,
}
use simple_ntpd.Connection.Admission.{
  handle_packet_iff, handle_packet_rejects, handle_packet_accepts,
}

abbrev pub stored_count : ℕ → NtpConnection → ℕ
stored_count minute c = count_of (lookup minute c.request_buckets)

module _ (digest : AuthAlgorithm → Bytes → Option Bytes) (minute : ℕ) where
  -- The packets accepted from a series that arrives in one minute.
  unfoldable pub accepted : List Bytes → NtpConnection → ℕ
  accepted [] c = 0
  accepted (buffer ∷ rest) c =
      let (c', served) = handle_packet digest minute buffer c in
      (if served then 1 else 0) + accepted rest c'

  -- One packet: the count grows by at most one, and by one if the packet is accepted, which it is
  -- only within the limit.
  record Counts (limit : ℕ) (c c' : NtpConnection) (served : Bool) : Type 0 where
    limited : c'.config.enable_rate_limiting ≡ true
    same_limit : c'.config.request_rate_limit_per_minute ≡ limit
    grows :
        (stored_count minute c' ≡ stored_count minute c)
        ⊎ (stored_count minute c' ≡ stored_count minute c + 1)
    within :
        served ≡ true
        → (stored_count minute c' ≡ stored_count minute c + 1) × (stored_count minute c + 1 ≤ limit)

  counted :
      (c : NtpConnection)
      → stored_count minute c + 1 < 2 ^ 32
      → stored_count minute (count_request minute c) ≡ stored_count minute c + 1
  unfolding count_request
  counted c h =
      ap count_of (lookup-insert_self minute (request_count minute c) c.request_buckets)
      ∙ omega arith

  handle_packet-Counts :
      (limit : ℕ) (buffer : Bytes) (c : NtpConnection)
      → c.config.enable_rate_limiting ≡ true
      → c.config.request_rate_limit_per_minute ≡ limit
      → stored_count minute c + 1 < 2 ^ 32
      → let (c', served) = handle_packet digest minute buffer c in Counts limit c c' served
  unfolding count_request
  handle_packet-Counts limit buffer c on same h =
      elim (Bool-cases (handle_packet digest minute buffer c).1) [
        | inl served ↦
            let (p, a) = (handle_packet_iff digest minute buffer c).0 served in
            let within : stored_count minute c + 1 ≤ limit =
              omega (arith, a.within_limit on, same) in
            let recorded =
              handle_packet_accepts digest minute buffer c served
              ∙ ap (λ b. record_request buffer (if b then count_request minute c else c)) on in
            rw (recorded, served)
              (record {
                limited = on;
                same_limit = same;
                grows = inr (counted c h);
                within = λ _. (counted c h, within);
              })
        | inr refused ↦ elim (handle_packet_rejects digest minute buffer c refused) [
          | inl kept ↦
              rw (kept, refused)
                (record { limited = on; same_limit = same; grows = inl refl; within = λ e. cc })
          | inr bumped ↦
              rw (bumped, refused)
                (record {
                  limited = on;
                  same_limit = same;
                  grows = inr (counted c h);
                  within = λ e. cc;
                })
        ]
      ]

  -- With rate limiting on, a connection accepts from a series of packets within one minute at
  -- most the limit less the count already stored for that minute, provided that the count stays
  -- below 2 ^ 32.
  accepted-le-limit :
      (limit : ℕ) (buffers : List Bytes) (c : NtpConnection)
      → c.config.enable_rate_limiting ≡ true
      → c.config.request_rate_limit_per_minute ≡ limit
      → stored_count minute c + length buffers < 2 ^ 32
      → accepted buffers c ≤ limit - stored_count minute c
  unfolding accepted
  accepted-le-limit limit [] c on same h = omega arith
  accepted-le-limit limit (buffer ∷ rest) c on same h =
      let k = handle_packet-Counts limit buffer c on same (omega arith) in
      let c' = (handle_packet digest minute buffer c).0 in
      let ih = accepted-le-limit limit rest c' k.limited k.same_limit (omega arith) in
      elim (Bool-cases (handle_packet digest minute buffer c).1) [
        | inl served ↦ rw served (omega (arith, ih, k.within served))
        | inr refused ↦ rw refused (omega (arith, ih, k.grows))
      ]
