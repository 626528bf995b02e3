-- ===== src/Server/Upstreams/Selection.antt =====
-- Which upstream `selectUpstreamServer` names, and what a failed send takes away.
use simple_ntpd.Common.{
  ℕ, zero, suc, ◌+◌, ◌%◌, ◌^◌, ◌≤◌, ◌<◌, ◌≡◌, ◌≢◌, ◌⊎◌, inl, inr, refl, sym, subst, ap, ◌∙◌, arith,
  false, List, [], ◌∷◌, ◌==◌, if◌then◌else◌, is_empty, not_empty_iff, length, get_or, Bool-cases,
  if-both,
}
use native.Mathlib.Nat.{mod-lt}
use simple_ntpd.Common.Text.{Bytes}
use simple_ntpd.Config.{UpstreamSelectionAlgorithm}
use simple_ntpd.Server.{NtpServer}
use simple_ntpd.Server.Upstreams.{by_algorithm, refill, select_upstream_server}

abbrev pub Contains : Bytes → List Bytes → Type 0
Contains name [] = ⊥
Contains name (x ∷ xs) = (name ≡ x) ⊎ Contains name xs

get_or-Contains : (xs : List Bytes) (i : ℕ) → i < length xs → Contains (get_or xs i []) xs
get_or-Contains [] i h = absurd (omega arith)
get_or-Contains (x ∷ xs) zero h = inl refl
get_or-Contains (x ∷ xs) (suc i) h = inr (get_or-Contains xs i (omega arith))

-- A selection keeps the list of candidates, and names one of it.
pub record Selects (t s' : NtpServer) (name : Bytes) : Type 0 where
  pub candidates : s'.healthy_upstreams ≡ t.healthy_upstreams
  pub one_of_them : Contains name t.healthy_upstreams
  pub same_config : s'.config ≡ t.config

named :
    (t : NtpServer) (i : ℕ)
    → 0 < length t.healthy_upstreams
    → Contains (get_or t.healthy_upstreams (i % length t.healthy_upstreams) []) t.healthy_upstreams
named t i h = get_or-Contains t.healthy_upstreams _ (mod-lt i h)

by_algorithm-Selects :
    (algorithm : UpstreamSelectionAlgorithm) (draw : ℕ) (t : NtpServer)
    → 0 < length t.healthy_upstreams
    → let (s', name) = by_algorithm algorithm draw t in Selects t s' name
unfolding by_algorithm
by_algorithm-Selects UpstreamSelectionAlgorithm.random draw t h = record {
  candidates = refl;
  one_of_them = named t draw h;
  same_config = refl;
}
by_algorithm-Selects UpstreamSelectionAlgorithm.round_robin draw t h = record {
  candidates = refl;
  one_of_them = named t t.upstream_rr_index h;
  same_config = refl;
}
by_algorithm-Selects UpstreamSelectionAlgorithm.least_errors draw t h = record {
  candidates = refl;
  one_of_them = named t t.upstream_rr_index h;
  same_config = refl;
}
by_algorithm-Selects (UpstreamSelectionAlgorithm.other n) draw t h = record {
  candidates = refl;
  one_of_them = named t t.upstream_rr_index h;
  same_config = refl;
}

refill-nonempty :
    (s : NtpServer) → s.config.upstream_servers ≢ [] → 0 < length (refill s).healthy_upstreams
refill-nonempty s h = elim (Bool-cases (is_empty s.healthy_upstreams)) [
  | inl empty ↦ ground (arith, length_pos s.config.upstream_servers h)
  | inr full ↦
      ground (arith, length_pos s.healthy_upstreams ((not_empty_iff s.healthy_upstreams).0 full))
]
  where
    length_pos : (xs : List Bytes) → xs ≢ [] → 0 < length xs
    length_pos [] d = absurd (d refl)
    length_pos (x ∷ xs) d = omega arith

-- With upstreams configured, a selection names one of the healthy upstreams, or one of the
-- configured ones if none is healthy, and leaves the configuration and that list as they are.
select_upstream_server-Selects :
    (draw : ℕ) (s : NtpServer)
    → s.config.upstream_servers ≢ []
    → let (s', name) = select_upstream_server draw s in Selects (refill s) s' name
unfolding select_upstream_server
select_upstream_server-Selects draw s h =
    let t = refill s in
    let some_there = refill-nonempty s h in
    let configured = (not_empty_iff s.config.upstream_servers).1 h in
    let alone = get_or t.healthy_upstreams 0 [] in
    let chosen = by_algorithm s.config.upstream_selection_algorithm draw t in
    subst
      (λ b.
        let r =
          if b then (s, []) else if length t.healthy_upstreams == 1 then (t, alone) else chosen in
        Selects t r.0 r.1)
      (sym configured)
      (if-both (λ (r : NtpServer × Bytes). Selects t r.0 r.1) (length t.healthy_upstreams == 1)
        (t, alone) chosen
        (record {
          candidates = refl;
          one_of_them = get_or-Contains t.healthy_upstreams 0 some_there;
          same_config = refl;
        })
        (by_algorithm-Selects s.config.upstream_selection_algorithm draw t some_there))

-- The names that the next `n` selections give.
unfoldable pub rotation : ℕ → ℕ → NtpServer → List Bytes
rotation draw zero s = []
rotation draw (suc n) s =
    let (s', name) = select_upstream_server draw s in name ∷ rotation draw n s'

-- `n` entries of `xs` from position `i` on, round and round.
unfoldable pub cycle : ℕ → ℕ → List Bytes → List Bytes
cycle i zero xs = []
cycle i (suc n) xs = get_or xs (i % length xs) [] ∷ cycle (i + 1) n xs

round_robin_step :
    (draw : ℕ) (s : NtpServer)
    → s.config.upstream_selection_algorithm ≡ UpstreamSelectionAlgorithm.round_robin
    → s.config.upstream_servers ≢ []
    → 2 ≤ length s.healthy_upstreams
    → select_upstream_server draw s ≡ (
      record s { upstream_rr_index = (s.upstream_rr_index + 1) % 2 ^ 64 },
      get_or s.healthy_upstreams (s.upstream_rr_index % length s.healthy_upstreams) [],
    )
unfolding select_upstream_server by_algorithm
round_robin_step draw s rr h two =
    let configured = (not_empty_iff s.config.upstream_servers).1 h in
    let full : is_empty s.healthy_upstreams ≡ false =
      (not_empty_iff s.healthy_upstreams).1 (λ e. several e) in
    let many : (length s.healthy_upstreams == 1) ≡ false = ground arith in
    let alone : NtpServer × Bytes = (s, get_or s.healthy_upstreams 0 []) in
    let filled : refill s ≡ s =
      ap (λ b. if b then record s { healthy_upstreams = s.config.upstream_servers } else s) full in
    let chosen = by_algorithm s.config.upstream_selection_algorithm draw s in
    ap
      (λ t.
        if is_empty s.config.upstream_servers
        then (s, [])
        else if length t.healthy_upstreams == 1
        then (t, get_or t.healthy_upstreams 0 [])
        else by_algorithm s.config.upstream_selection_algorithm draw t)
      filled
    ∙ (ap (λ b. if b then (s, []) else if length s.healthy_upstreams == 1 then alone else chosen)
          configured
        ∙ (ap (λ b. if b then alone else chosen) many
            ∙ ap (λ algorithm. by_algorithm algorithm draw s) rr))
  where
    several : s.healthy_upstreams ≡ [] → ⊥
    several e = absurd (omega (arith, two, ap length e))

-- With round robin, upstreams configured and at least two of them healthy, the next n selections
-- name the healthy upstreams in turn from the index on, provided that the index stays below 2 ^
-- 64.
rotation-cycle :
    (draw n : ℕ) (s : NtpServer)
    → s.config.upstream_selection_algorithm ≡ UpstreamSelectionAlgorithm.round_robin
    → s.config.upstream_servers ≢ []
    → 2 ≤ length s.healthy_upstreams
    → s.upstream_rr_index + n < 2 ^ 64
    → rotation draw n s ≡ cycle s.upstream_rr_index n s.healthy_upstreams
unfolding rotation cycle
rotation-cycle draw zero s rr h two small = refl
rotation-cycle draw (suc n) s rr h two small =
    let next = record s { upstream_rr_index = (s.upstream_rr_index + 1) % 2 ^ 64 } in
    let step = round_robin_step draw s rr h two in
    let forward : (s.upstream_rr_index + 1) % 2 ^ 64 ≡ s.upstream_rr_index + 1 = omega arith in
    ap (λ (r : NtpServer × Bytes). r.1 ∷ rotation draw n r.0) step
    ∙ ap
        (λ (names : List Bytes).
          get_or s.healthy_upstreams (s.upstream_rr_index % length s.healthy_upstreams) [] ∷ names)
        (rotation-cycle draw n next rr h two (omega arith)
          ∙ ap (λ (i : ℕ). cycle i n s.healthy_upstreams) forward)
