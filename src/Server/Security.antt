-- ===== src/Server/Security.antt =====
-- `isClientAllowed`, `isRateLimitExceeded` and `isDdosAnomaly` of src/simple-ntpd/core/server.cpp.
-- The time is the count of whole minutes or seconds of the steady clock.
pub mod Acl
pub mod Window
use simple_ntpd.Common.{
  ℕ, ◌+◌, ◌%◌, ◌^◌, Bool, true, false, not, ◌&&◌, Option, none, some, List, [], ◌∷◌, ◌==◌, ltb,
  if◌then◌else◌, is_empty,
}
use simple_ntpd.Common.Text.{Bytes}
use simple_ntpd.Common.Result.{Result, ok, exception, ◌>>=◌}
use simple_ntpd.Common.Map.{lookup, insert, bytes_eq}
use simple_ntpd.Config.{NtpConfig}
use simple_ntpd.Net.{is_ip_in_cidr}
use simple_ntpd.Server.{Buckets}

module _ (inet_pton : Bytes → Option ℕ) where
  -- The loops over `denied_clients` and `allowed_clients`: whether one matches, up to the first.
  unfoldable pub any_match : Bytes → List Bytes → Result Bool
  any_match ip [] = ok false
  any_match ip (block ∷ blocks) =
      let later = any_match ip blocks in
      is_ip_in_cidr inet_pton ip block >>= λ hit. if hit then ok true else later

  unfoldable pub is_client_allowed : NtpConfig → Bytes → Result Bool
  is_client_allowed config ip =
      if not config.enable_acl && not config.restrict_queries
      then ok true
      else any_match ip config.denied_clients >>= λ denied.
          if denied
          then ok false
          else if is_empty config.allowed_clients
          then ok (not config.restrict_queries)
          else any_match ip config.allowed_clients

-- `buckets[ip]`, which starts at (0, 0), moved to the bucket `now` and counted up.
abbrev pub entry_of : Option (ℕ × ℕ) → ℕ × ℕ
entry_of none = (0, 0)
entry_of (some e) = e

abbrev pub count_up : ℕ → ℕ × ℕ → ℕ × ℕ
count_up now (bucket, count) = (now, ((if bucket == now then count else 0) + 1) % 2 ^ 32)

-- Both functions do this to their own map; the result is whether the limit is passed.
unfoldable pub tick_bucket : ℕ → ℕ → Bytes → Buckets → Buckets × Bool
tick_bucket limit now ip buckets =
    let entry = count_up now (entry_of (lookup ip buckets)) in
    (insert ip entry buckets, ltb limit entry.1)

unfoldable pub is_rate_limit_exceeded : NtpConfig → ℕ → Bytes → Buckets → Buckets × Bool
unfolding tick_bucket
is_rate_limit_exceeded config minute ip buckets =
    if not config.enable_rate_limiting
    then (buckets, false)
    else tick_bucket config.connection_rate_limit_per_minute minute ip buckets

unfoldable pub is_ddos_anomaly : NtpConfig → ℕ → Bytes → Buckets → Buckets × Bool
unfolding tick_bucket
is_ddos_anomaly config second ip buckets =
    if not config.enable_ddos_protection
    then (buckets, false)
    else tick_bucket config.ddos_anomaly_threshold_per_second second ip buckets
