-- ===== src/Upstream/Best.antt =====
-- What `syncOnce` keeps of its queries, and the stratum that it leads to.
use simple_ntpd.Common.{
  ℕ, ◌+◌, ◌≤◌, ◌≡◌, ◌≢◌, ◌⊎◌, inl, inr, refl, arith, true, false, List, [], ◌∷◌, All, min,
  Bool-cases, false_iff, ◌∙◌, ap,
}
use simple_ntpd.Common.Int.{ℤ, ◌≤ℤ◌}
use simple_ntpd.Common.Text.{Bytes}
use simple_ntpd.Upstream.{
  UpstreamSyncResult, failed_result, Network, query_upstream_server, SyncState, better, best_of,
  adopt, sync_once, effective_stratum,
}

-- The results of the queries, in order.
abbrev pub attempts : List (Bytes × Network) → List UpstreamSyncResult
attempts [] = []
attempts ((host, net) ∷ rest) = query_upstream_server net host ∷ attempts rest

-- No success among the results has a shorter delay than `best`, which is a success if one is.
abbrev pub NoneBetter : UpstreamSyncResult → UpstreamSyncResult → Type 0
NoneBetter best attempt =
    attempt.success ≡ true → (best.success ≡ true) × (best.delay_us ≤ℤ attempt.delay_us)

abbrev pub OneOf : UpstreamSyncResult → List UpstreamSyncResult → Type 0
OneOf best [] = ⊥
OneOf best (r ∷ rest) = (best ≡ r) ⊎ OneOf best rest

better-NoneBetter :
    (best attempt : UpstreamSyncResult)
    → NoneBetter (better best attempt) best × NoneBetter (better best attempt) attempt
unfolding better
better-NoneBetter best attempt = ground arith

NoneBetter-trans : (a b c : UpstreamSyncResult) → NoneBetter a b → NoneBetter b c → NoneBetter a c
NoneBetter-trans a b c h k s = let (bs, bc) = k s in let (as', ab) = h bs in (as', omega arith)

best_of-NoneBetter :
    (best : UpstreamSyncResult) (servers : List (Bytes × Network))
    → NoneBetter (best_of best servers) best
      × All (NoneBetter (best_of best servers)) (attempts servers)
unfolding best_of
best_of-NoneBetter best [] = ((λ s. (s, omega arith)), tt)
best_of-NoneBetter best ((host, net) ∷ rest) =
    let attempt = query_upstream_server net host in
    let next = better best attempt in
    let (kept, all) = best_of-NoneBetter next rest in
    let (old, new) = better-NoneBetter best attempt in
    (
      NoneBetter-trans (best_of next rest) next best kept old,
      (NoneBetter-trans (best_of next rest) next attempt kept new, all),
    )

better-OneOf :
    (best attempt : UpstreamSyncResult)
    → (better best attempt ≡ best) ⊎ (better best attempt ≡ attempt)
unfolding better
better-OneOf best attempt = ground arith

best_of-OneOf :
    (best : UpstreamSyncResult) (servers : List (Bytes × Network))
    → (best_of best servers ≡ best) ⊎ OneOf (best_of best servers) (attempts servers)
unfolding best_of
best_of-OneOf best [] = inl refl
best_of-OneOf best ((host, net) ∷ rest) =
    let attempt = query_upstream_server net host in
    elim (best_of-OneOf (better best attempt) rest) [
      | inl e ↦ elim (better-OneOf best attempt) [
        | inl old ↦ inl (e ∙ old)
        | inr new ↦ inr (inl (e ∙ new))
      ]
      | inr later ↦ inr (inr later)
    ]

abbrev IsFailure : UpstreamSyncResult → Type 0
IsFailure r = r.success ≡ false

none_succeeded :
    (best : UpstreamSyncResult) (rs : List UpstreamSyncResult)
    → best.success ≡ false
    → All (NoneBetter best) rs
    → All IsFailure rs
none_succeeded best [] f h = tt
none_succeeded best (r ∷ rs) f h =
    ((false_iff r.success).1 (λ s. cc ((h.0 s).0)), none_succeeded best rs f h.1)

-- What a round of queries leaves behind.
pub record Learns (servers : List (Bytes × Network)) (s s' : SyncState) (r : UpstreamSyncResult)
    : Type 0 where
  pub chosen :
      r.success ≡ true
      → OneOf r (attempts servers)
        × All (NoneBetter r) (attempts servers)
        × (s'.synced ≡ true)
        × (s'.clock_offset_us ≡ r.offset_us)
        × (s'.upstream_stratum ≡ r.stratum)
        × (s'.synced_upstream ≡ r.server)
  pub nothing : r.success ≡ false → All IsFailure (attempts servers) × (s' ≡ s)

adopt-Learns :
    (servers : List (Bytes × Network)) (now : ℤ) (s : SyncState) (best : UpstreamSyncResult)
    → (best.success ≡ true → OneOf best (attempts servers))
    → All (NoneBetter best) (attempts servers)
    → Learns servers s (adopt now best s) best
unfolding adopt
adopt-Learns servers now s best one all = elim (Bool-cases best.success) [
  | inl won ↦ record {
    chosen = λ e. (one e, all, ground arith, ground arith, ground arith, ground arith);
    nothing = λ e. cc;
  }
  | inr lost ↦ record {
    chosen = λ e. cc;
    nothing = λ e. (none_succeeded best (attempts servers) lost all, ground arith);
  }
]

-- A round of queries whose result is a success yields one of the results of the queries, with no
-- successful result of a shorter delay among them, and the state is synchronised to its offset,
-- stratum and server; without success every query failed and the state is unchanged.
pub sync_once-Learns :
    (servers : List (Bytes × Network)) (now : ℤ) (s : SyncState)
    → let (s', r) = sync_once servers now s in Learns servers s s' r
unfolding sync_once
sync_once-Learns servers now s =
    adopt-Learns servers now s best one (best_of-NoneBetter (failed_result []) servers).1
  where
    best : UpstreamSyncResult
    best = best_of (failed_result []) servers

    one : best.success ≡ true → OneOf best (attempts servers)
    one won = elim (best_of-OneOf (failed_result []) servers) [
      | inl e ↦ absurd (cc (won, ap (λ (r : UpstreamSyncResult). r.success) e))
      | inr o ↦ o
    ]

-- The effective stratum is the upstream's plus one, at most 15, if the state is synchronised and
-- the upstream's stratum is not 0, and the configured one otherwise.
effective_stratum_cases :
    (s : SyncState) (configured : ℕ)
    → ((s.synced ≡ true)
        × (s.upstream_stratum ≢ 0)
        × (effective_stratum s configured ≡ min (s.upstream_stratum + 1) 15))
      ⊎ (((s.synced ≡ false) ⊎ (s.upstream_stratum ≡ 0))
          × (effective_stratum s configured ≡ configured))
unfolding effective_stratum
effective_stratum_cases s configured = ground arith

pub effective_stratum-le :
    (s : SyncState) (configured : ℕ) → configured ≤ 15 → effective_stratum s configured ≤ 15
unfolding effective_stratum
effective_stratum-le s configured h = ground arith
