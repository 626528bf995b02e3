-- ===== src/Server/Reports/Health/Verdict.antt =====
-- What the verdict of `runHealthChecks` (src/simple-ntpd/core/server.cpp) means.
use simple_ntpd.Common.{
  ◌/◌, ◌≤◌, ◌≡◌, ◌↔◌, ◌⊎◌, refl, ap, sym, ◌∙◌, arith, Bool, true, false, not, Option, none, some,
  List, [], ◌∷◌, ◌++◌, All, append-All, is_empty,
}
use simple_ntpd.Common.Text.{Bytes, codes, split_on}
use simple_ntpd.Common.Text.Laws.{Avoids}
use simple_ntpd.Common.Text.Lines.{split_on-unlines, lacks, lacks-Avoids, number_line-Avoids}
use simple_ntpd.Server.{NtpServer}
use simple_ntpd.Server.Reports.{truth}
use simple_ntpd.Server.Reports.Health.{
  is_bound, is_synced, upstream_lines, leap_lines, error_lines, has_high_errors, verdict_line,
  state_report, is_healthy, run_health_checks,
}

-- The last line of a text.
unfoldable pub last_of : List Bytes → Option Bytes
last_of [] = none
last_of (l ∷ []) = some l
last_of (l ∷ k ∷ ls) = last_of (k ∷ ls)

last_of-append :
    (ks ls : List Bytes) (l : Bytes) → last_of ls ≡ some l → last_of (ks ++ ls) ≡ some l
unfolding last_of
last_of-append [] ls l e = e
last_of-append (k ∷ []) [] l e = absurd (cc)
last_of-append (k ∷ []) (m ∷ ls) l e = e
last_of-append (j ∷ k ∷ ks) ls l e = last_of-append (k ∷ ks) ls l e

abbrev IsLine : Bytes → Type 0
IsLine = Avoids 10

upstream_lines-IsLine : (a b : Bool) → All IsLine (upstream_lines a b)
unfolding upstream_lines lacks
upstream_lines-IsLine false b = tt
upstream_lines-IsLine true true = (lacks-Avoids 10 (codes "upstream_synced: true") refl, tt)
upstream_lines-IsLine true false = (
  lacks-Avoids 10 (codes "upstream_synced: false") refl,
  (lacks-Avoids 10 (codes "warning: upstream time synchronization not established") refl, tt),
)

leap_lines-IsLine : (a b : Bool) → All IsLine (leap_lines a b)
unfolding leap_lines lacks
leap_lines-IsLine false b = tt
leap_lines-IsLine true true = (lacks-Avoids 10 (codes "leap_second_file_present: true") refl, tt)
leap_lines-IsLine true false = (
  lacks-Avoids 10 (codes "leap_second_file_present: false") refl,
  (
    lacks-Avoids 10 (codes "warning: leap second handling enabled but leap second file missing")
        refl,
    tt,
  ),
)

last_lines-IsLine :
    (high healthy : Bool) → All IsLine (error_lines high ++ verdict_line healthy ∷ [])
unfolding error_lines verdict_line lacks
last_lines-IsLine true true = (
  lacks-Avoids 10 (codes "warning: high error ratio detected") refl,
  (lacks-Avoids 10 (codes "overall_status: healthy") refl, tt),
)
last_lines-IsLine true false = (
  lacks-Avoids 10 (codes "warning: high error ratio detected") refl,
  (lacks-Avoids 10 (codes "overall_status: degraded") refl, tt),
)
last_lines-IsLine false true = (lacks-Avoids 10 (codes "overall_status: healthy") refl, tt)
last_lines-IsLine false false = (lacks-Avoids 10 (codes "overall_status: degraded") refl, tt)

truth-lacks : (b : Bool) → lacks 10 (truth b) ≡ true
unfolding lacks
truth-lacks true = refl
truth-lacks false = refl

state_report-IsLine : (s : NtpServer) → All IsLine (state_report s)
unfolding lacks
state_report-IsLine s = (
  lacks-Avoids 10 (codes "Health Check Report") refl,
  (
    lacks-Avoids 10 (codes "running: " ++ truth s.running) (truth-lacks s.running),
    (
      lacks-Avoids 10 (codes "socket_bound: " ++ truth (is_bound s.server_socket))
          (truth-lacks (is_bound s.server_socket)),
      (
        number_line-Avoids (codes "active_connections: ") s.stats.active_connections [] refl refl,
        (
          number_line-Avoids (codes "total_errors: ") s.stats.total_errors [] refl refl,
          (
            lacks-Avoids 10
                (codes "config_loaded: " ++ truth (not (is_empty s.config.last_config_file)))
                (truth-lacks (not (is_empty s.config.last_config_file))),
            tt,
          ),
        ),
      ),
    ),
  ),
)

-- What the report demands of a healthy server.
abbrev pub IsHealthy : (Bytes → Bool) → NtpServer → Type 0
IsHealthy leap_exists s =
    (s.running ≡ true)
    × ((is_empty s.config.upstream_servers ≡ true) ⊎ (is_synced s.upstream_sync ≡ true))
    × ((s.config.enable_leap_second_handling ≡ false)
        ⊎ (leap_exists s.config.leap_second_file ≡ true))
    × ((s.stats.total_requests ≡ 0) ⊎ (s.stats.total_errors ≤ s.stats.total_requests / 2))

is_healthy_iff :
    (leap_exists : Bytes → Bool) (s : NtpServer)
    → (is_healthy leap_exists s ≡ true) ↔ IsHealthy leap_exists s
unfolding is_healthy
is_healthy_iff leap_exists s = ground arith

verdict_line_iff :
    (b : Bool) → (some (verdict_line b) ≡ some (codes "overall_status: healthy")) ↔ (b ≡ true)
unfolding verdict_line
verdict_line_iff true = (λ e. refl, λ e. refl)
verdict_line_iff false = (λ e. cc, λ e. absurd (cc))

module _ (leap_exists : Bytes → Bool) (s : NtpServer) where
  last_lines : List Bytes
  last_lines = error_lines (has_high_errors s.stats) ++ verdict_line (is_healthy leap_exists s) ∷ []

  upstreams : List Bytes
  upstreams = upstream_lines (not (is_empty s.config.upstream_servers)) (is_synced s.upstream_sync)

  leaps : List Bytes
  leaps = leap_lines s.config.enable_leap_second_handling (leap_exists s.config.leap_second_file)

  run_health_checks-All : All IsLine (state_report s ++ (upstreams ++ (leaps ++ last_lines)))
  unfolding upstreams leaps last_lines
  run_health_checks-All =
      append-All IsLine (state_report s) (upstreams ++ (leaps ++ last_lines))
        (state_report-IsLine s)
        (append-All IsLine upstreams (leaps ++ last_lines) (upstream_lines-IsLine _ _)
          (append-All IsLine leaps last_lines (leap_lines-IsLine _ _) (last_lines-IsLine _ _)))

  last_line :
      last_of (split_on 10 (run_health_checks leap_exists s))
      ≡ some (verdict_line (is_healthy leap_exists s))
  unfolding run_health_checks upstreams leaps last_lines last_of
  last_line =
      ap last_of (split_on-unlines _ run_health_checks-All)
      ∙ last_of-append (state_report s) (upstreams ++ (leaps ++ last_lines)) _ (
          last_of-append upstreams (leaps ++ last_lines) _ (
            last_of-append leaps last_lines _ (
              last_of-append (error_lines (has_high_errors s.stats))
                (verdict_line (is_healthy leap_exists s) ∷ []) _ refl)))

  -- The last line of the health report says healthy exactly if the server is running, it has no
  -- upstreams or is synchronised with one, leap seconds are not handled or their file exists, and
  -- at most half as many errors as requests are counted, rounded down, or no request is.
  pub run_health_checks_iff :
      (last_of (split_on 10 (run_health_checks leap_exists s))
        ≡ some (codes "overall_status: healthy"))
      ↔ IsHealthy leap_exists s
  run_health_checks_iff = (
    λ e.
        (is_healthy_iff leap_exists s).0
          ((verdict_line_iff (is_healthy leap_exists s)).0 (sym last_line ∙ e)),
    λ h.
        last_line
        ∙ (verdict_line_iff (is_healthy leap_exists s)).1 ((is_healthy_iff leap_exists s).1 h),
  )
