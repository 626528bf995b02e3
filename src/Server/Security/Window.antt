-- ===== src/Server/Security/Window.antt =====
-- The per-client limits over a time window, and that clients do not share a bucket.
use simple_ntpd.Common.{
  ℕ, zero, suc, ◌+◌, ◌-◌, ◌^◌, ◌<◌, ◌≡◌, ◌≢◌, ap, ◌∙◌, arith, some, if◌then◌else◌, ltb, ◌==◌, min,
}
use simple_ntpd.Common.Text.{Bytes}
use simple_ntpd.Common.Map.{lookup, lookup-insert_other, lookup-insert_self, bytes_eq}
use simple_ntpd.Server.{Buckets}
use simple_ntpd.Server.Security.{entry_of, count_up, tick_bucket}

-- The count that a client has in the bucket of `now`.
abbrev pub in_window : ℕ → ℕ × ℕ → ℕ
in_window now (bucket, count) = if bucket == now then count else 0

abbrev pub window_count : ℕ → Bytes → Buckets → ℕ
window_count now ip buckets = in_window now (entry_of (lookup ip buckets))

-- How many of the next `n` packets of one client within one window pass the limit.
unfoldable pub passed : ℕ → ℕ → Bytes → ℕ → Buckets → ℕ
passed limit now ip zero buckets = 0
passed limit now ip (suc n) buckets =
    let (buckets', exceeded) = tick_bucket limit now ip buckets in
    (if exceeded then 0 else 1) + passed limit now ip n buckets'

stored :
    (limit now : ℕ) (ip : Bytes) (buckets : Buckets)
    → lookup ip (tick_bucket limit now ip buckets).0
      ≡ some (count_up now (entry_of (lookup ip buckets)))
unfolding tick_bucket
stored limit now ip buckets = lookup-insert_self ip _ buckets

step_count :
    (limit now : ℕ) (ip : Bytes) (buckets : Buckets)
    → window_count now ip buckets + 1 < 2 ^ 32
    → window_count now ip (tick_bucket limit now ip buckets).0 ≡ window_count now ip buckets + 1
step_count limit now ip buckets h =
    ap (λ o. in_window now (entry_of o)) (stored limit now ip buckets) ∙ ground arith

step_passes :
    (limit now : ℕ) (ip : Bytes) (buckets : Buckets)
    → window_count now ip buckets + 1 < 2 ^ 32
    → (tick_bucket limit now ip buckets).1 ≡ ltb limit (window_count now ip buckets + 1)
unfolding tick_bucket
step_passes limit now ip buckets h = ground arith

-- Of the next n packets of one client within one window, as many pass as are left of the limit
-- behind the count the client has in it, and all n if more are left, provided that the count
-- stays below 2 ^ 32.
pub passed_eq :
    (limit now : ℕ) (ip : Bytes) (n : ℕ) (buckets : Buckets)
    → window_count now ip buckets + n < 2 ^ 32
    → passed limit now ip n buckets ≡ min n (limit - window_count now ip buckets)
unfolding passed
passed_eq limit now ip zero buckets h = omega arith
passed_eq limit now ip (suc n) buckets h =
    let counted = step_count limit now ip buckets (omega arith) in
    let test = step_passes limit now ip buckets (omega arith) in
    let ih = passed_eq limit now ip n (tick_bucket limit now ip buckets).0 (omega arith) in
    rw (test, ih, counted) (ground arith)

-- Counting a packet of another client leaves the bucket of a client as it is.
tick_bucket-other :
    (limit now : ℕ) (ip other : Bytes) (buckets : Buckets)
    → other ≢ ip
    → lookup ip (tick_bucket limit now other buckets).0 ≡ lookup ip buckets
unfolding tick_bucket
tick_bucket-other limit now ip other buckets d = lookup-insert_other other ip _ buckets d
