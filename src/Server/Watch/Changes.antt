-- ===== src/Server/Watch/Changes.antt =====
-- The watcher of the configuration file (src/simple-ntpd/core/server.cpp): when it reloads.
use simple_ntpd.Common.{
  ℕ, ◌≡◌, refl, ap, sym, ◌∙◌, Bool, true, false, not, Option, none, some, List, [], ◌∷◌, ◌++◌, All,
  if◌then◌else◌, if-true, if-false, if-both, some-value, subst, Bool-cases, inl, inr,
}
use simple_ntpd.Common.Int.{ℤ, eq_ℤ, eq_ℤ-eq}
use simple_ntpd.Common.Text.{Bytes}
use simple_ntpd.Config.{AuthAlgorithm}
use simple_ntpd.Logger.{Logger}
use simple_ntpd.Server.{NtpServer}
use simple_ntpd.Server.Reload.{reload_config}
use simple_ntpd.Server.Lifetime.{Run, done, then_, Run-trans, reloaded}
use simple_ntpd.Server.Watch.{
  Watched, Tick, reload_watched, poll, poll_answered, poll_reading, config_watcher_loop,
}

-- The polls that could read the time of the file, with that time.
unfoldable pub with_reading : Tick → Option ℤ → List (ℤ × Tick) → List (ℤ × Tick)
with_reading t none rs = rs
with_reading t (some now) rs = (now, t) ∷ rs

unfoldable pub readings : List Tick → List (ℤ × Tick)
unfolding with_reading
readings [] = []
readings (t ∷ ts) = with_reading t t.mtime (readings ts)

-- Whether two readings in a row differ; before the first one nothing differs.
unfoldable pub differs : Option ℤ → ℤ → Bool
differs none now = false
differs (some before) now = not (eq_ℤ now before)

-- The polls whose reading differs from the reading before it.
unfoldable pub changes : Option ℤ → List (ℤ × Tick) → List Tick
changes last [] = []
changes last ((now, t) ∷ rs) =
    let later = changes (some now) rs in if differs last now then t ∷ later else later

-- The server and the logger after a reload at each of some polls.
unfoldable pub reload_each : List Tick → NtpServer × Logger → NtpServer × Logger
reload_each [] (s, l) = (s, l)
reload_each (t ∷ ts) (s, l) =
    let (s', l', ok) = reload_config t.getenv t.files l s in reload_each ts (s', l')

abbrev pub IsUp : Tick → Type 0
IsUp t = t.up ≡ true

-- The rounds of the loop, without the test.
polls : List Tick → Watched → Watched
polls [] w = w
polls (t ∷ ts) w = polls ts (poll t w)

config_watcher_loop-polls :
    (ticks : List Tick) (down : Tick) (rest : List Tick) (w : Watched)
    → All IsUp ticks
    → down.up ≡ false
    → config_watcher_loop (ticks ++ down ∷ rest) w ≡ some (polls ticks w)
unfolding config_watcher_loop polls
config_watcher_loop-polls [] down rest w up is_down = rw is_down refl
config_watcher_loop-polls (t ∷ ts) down rest w (here, there) is_down =
    if-false (not t.up) _ _ (ap not here)
    ∙ config_watcher_loop-polls ts down rest (poll t w) there is_down

abbrev pair_of : Watched → NtpServer × Logger
pair_of w = (w.server, w.logger)

Follows : List Tick → Type 0
Follows ts =
    (w : Watched)
    → pair_of (polls ts w) ≡ reload_each (changes w.last_mtime (readings ts)) (pair_of w)

-- One readable poll, before polls of which it is shown.
reading-Follows :
    (t : Tick) (now : ℤ) (last : Option ℤ) (ts : List Tick) (w : Watched)
    → w.last_mtime ≡ last
    → Follows ts
    → pair_of (polls ts (poll_reading t now last w))
      ≡ reload_each (changes last ((now, t) ∷ readings ts)) (pair_of w)
unfolding Follows poll_reading changes differs reload_each reload_watched
reading-Follows t now none ts w e ih = ih (record w { last_mtime = some now })
reading-Follows t now (some before) ts w e ih = elim (Bool-cases (eq_ℤ now before)) [
  | inl same ↦ rw same (
      ih w
      ∙ ap (λ last. reload_each (changes last (readings ts)) (pair_of w))
          (e ∙ ap some (sym (eq_ℤ-eq now before same))))
  | inr other ↦ rw other (ih (reload_watched t (record w { last_mtime = some now })))
]

answered-Follows :
    (t : Tick) (mtime : Option ℤ) (ts : List Tick) (w : Watched)
    → Follows ts
    → pair_of (polls ts (poll_answered t mtime w))
      ≡ reload_each (changes w.last_mtime (with_reading t mtime (readings ts))) (pair_of w)
unfolding Follows poll_answered with_reading
answered-Follows t none ts w ih = ih w
answered-Follows t (some now) ts w ih = reading-Follows t now w.last_mtime ts w refl ih

polls-Follows : (ticks : List Tick) → Follows ticks
unfolding Follows polls readings changes reload_each poll
polls-Follows [] w = refl
polls-Follows (t ∷ ts) w = answered-Follows t t.mtime ts w (polls-Follows ts)

-- If the flag is up at the tests of some rounds and down at the one behind them, the loop
-- returns, and the server and the logger are those after one reload at each poll whose reading of
-- the file's time differs from the last reading before it, in their order, and no other.
pub config_watcher_loop-reload_each :
    (ticks : List Tick) (down : Tick) (rest : List Tick) (w : Watched)
    → All IsUp ticks
    → down.up ≡ false
    → (v : Watched) × (config_watcher_loop (ticks ++ down ∷ rest) w ≡ some v)
      × ((v.server, v.logger)
          ≡ reload_each (changes w.last_mtime (readings ticks)) (w.server, w.logger))
unfolding Follows
config_watcher_loop-reload_each ticks down rest w up is_down =
    (polls ticks w, config_watcher_loop-polls ticks down rest w up is_down, polls-Follows ticks w)

module _ (digest : AuthAlgorithm → Bytes → Option Bytes) (inet_pton : Bytes → Option ℕ) where
  reading-Run :
      (t : Tick) (now : ℤ) (last : Option ℤ) (w : Watched)
      → Run digest inet_pton w.server (poll_reading t now last w).server
  unfolding poll_reading reload_watched
  reading-Run t now none w = done
  reading-Run t now (some before) w =
      if-both (λ (v : Watched). Run digest inet_pton w.server v.server) (eq_ℤ now before) w
        (reload_watched t (record w { last_mtime = some now })) done
        (then_ done (reloaded t.getenv t.files w.logger))

  answered-Run :
      (t : Tick) (mtime : Option ℤ) (w : Watched)
      → Run digest inet_pton w.server (poll_answered t mtime w).server
  unfolding poll_answered
  answered-Run t none w = done
  answered-Run t (some now) w = reading-Run t now w.last_mtime w

  -- What the watcher makes of the server, however long it has run, is a run of the steps of the
  -- server's lifetime.
  config_watcher_loop-Run :
      (ticks : List Tick) (w v : Watched)
      → config_watcher_loop ticks w ≡ some v
      → Run digest inet_pton w.server v.server
  unfolding config_watcher_loop poll
  config_watcher_loop-Run [] w v e = absurd (cc)
  config_watcher_loop-Run (t ∷ ts) w v e = elim (Bool-cases (not t.up)) [
    | inl down ↦
        subst (λ (u : Watched). Run digest inet_pton w.server u.server)
          (some-value (sym (if-true (not t.up) _ _ down) ∙ e)) done
    | inr up ↦
        Run-trans digest inet_pton (answered-Run t t.mtime w)
          (config_watcher_loop-Run ts (poll t w) v (sym (if-false (not t.up) _ _ up) ∙ e))
  ]
