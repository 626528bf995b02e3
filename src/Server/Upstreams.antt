-- ===== src/Server/Upstreams.antt =====
-- `selectUpstreamServer`, `applyDynamicStratum` and `effectiveReferenceId` of
-- src/simple-ntpd/core/server.cpp.
pub mod Selection
use simple_ntpd.Common.{
  ℕ, zero, suc, ◌+◌, ◌*◌, ◌%◌, ◌^◌, Bool, true, false, not, ◌&&◌, Option, none, some, List, [], ◌∷◌,
  ◌==◌, ltb, if◌then◌else◌, is_empty, length, get_or, map,
}
use simple_ntpd.Common.Text.{Bytes, codes, equal, to_lower}
use simple_ntpd.Config.{NtpConfig, UpstreamSelectionAlgorithm}
use simple_ntpd.Server.{NtpServer}

-- The `switch` of `selectUpstreamServer`. `draw` stands for what the uniform distribution over
-- the indices gives.
by_algorithm : UpstreamSelectionAlgorithm → ℕ → NtpServer → NtpServer × Bytes
by_algorithm UpstreamSelectionAlgorithm.random draw s =
    (s, get_or s.healthy_upstreams (draw % length s.healthy_upstreams) [])
by_algorithm _ draw s = (
  record s { upstream_rr_index = (s.upstream_rr_index + 1) % 2 ^ 64 },
  get_or s.healthy_upstreams (s.upstream_rr_index % length s.healthy_upstreams) [],
)

-- An empty list of healthy upstreams is filled again from the configuration.
abbrev pub refill : NtpServer → NtpServer
refill s =
    if is_empty s.healthy_upstreams
    then record s { healthy_upstreams = s.config.upstream_servers }
    else s

unfoldable pub select_upstream_server : ℕ → NtpServer → NtpServer × Bytes
unfolding by_algorithm
select_upstream_server draw s =
    let s' = refill s in
    if is_empty s.config.upstream_servers
    then (s, [])
    else if length s'.healthy_upstreams == 1
    then (s', get_or s'.healthy_upstreams 0 [])
    else by_algorithm s.config.upstream_selection_algorithm draw s'

-- The ratio of two counters below 2 ^ 50 as `double` is above 0.20 exactly if it is above 1/5.
abbrev pub high_error_ratio : ℕ → ℕ → Bool
high_error_ratio errors requests = ltb requests (5 * errors)

unfoldable pub apply_dynamic_stratum : NtpServer → NtpServer
apply_dynamic_stratum s =
    if s.config.enable_dynamic_stratum_adjustment
      && ltb 100 s.stats.total_requests
      && high_error_ratio s.stats.total_errors s.stats.total_requests
      && ltb s.config.stratum 15
    then record s { config = record s.config { stratum = s.config.stratum + 1 } }
    else s

unfoldable pub effective_reference_id : NtpConfig → Bytes
effective_reference_id config =
    let source = map to_lower config.reference_clock_source in
    if not config.enable_reference_clock_support
    then config.reference_id
    else if equal source (codes "gps")
    then codes "GPS "
    else if equal source (codes "atomic")
    then codes "ATOM"
    else if equal source (codes "hardware")
    then codes "HARD"
    else if is_empty config.reference_id
    then codes "LOCL"
    else config.reference_id
