-- ===== src/Server/Watch.antt =====
-- `startConfigWatcher` and `configWatcherLoop` (src/simple-ntpd/core/server.cpp): the thread that polls
-- the time of the configuration file and reloads it. What the clock of the file and the
-- environment answer at each poll is a `Tick`; a time is a number, and `none` an exception.
pub mod Changes
mod Runs
use simple_ntpd.Common.{
  Bool, true, false, not, Option, none, some, List, [], ◌∷◌, if◌then◌else◌, is_empty,
}
use simple_ntpd.Common.Int.{ℤ, eq_ℤ}
use simple_ntpd.Common.Text.{Bytes}
use simple_ntpd.Logger.{Logger}
use simple_ntpd.Server.{NtpServer}
use simple_ntpd.Server.Reload.{reload_config}

-- What the watcher and its reloads work on; `last_mtime` is `config_last_mtime_`, or `none` while
-- `config_mtime_initialized_` is false.
pub record Watched : Type 0 where
  pub server : NtpServer
  pub logger : Logger
  pub last_mtime : Option ℤ

-- One round of the loop: whether `config_watch_running_` is up at the test, then the time of the
-- file after the pause, and what a reload reads.
pub record Tick : Type 0 where
  pub up : Bool
  pub mtime : Option ℤ
  pub getenv : Bytes → Option Bytes
  pub files : Bytes → Option Bytes

-- The initial reading; `none` if no thread is started, as no file is recorded.
unfoldable pub start_config_watcher : Option ℤ → NtpServer → Logger → Option Watched
start_config_watcher mtime s l =
    if is_empty s.config.last_config_file
    then none
    else some (record { server = s; logger = l; last_mtime = mtime })

unfoldable pub reload_watched : Tick → Watched → Watched
reload_watched t w =
    let (s, l, ok) = reload_config t.getenv t.files w.logger w.server in
    record { server = s; logger = l; last_mtime = w.last_mtime }

-- A poll that reads the time `now`, after `last_mtime`.
unfoldable pub poll_reading : Tick → ℤ → Option ℤ → Watched → Watched
unfolding reload_watched
poll_reading t now none w = record w { last_mtime = some now }
poll_reading t now (some before) w =
    if eq_ℤ now before then w else reload_watched t (record w { last_mtime = some now })

-- A poll whose reading is the second argument.
unfoldable pub poll_answered : Tick → Option ℤ → Watched → Watched
poll_answered t none w = w
poll_answered t (some now) w = poll_reading t now w.last_mtime w

-- A round behind the test and the pause.
unfoldable pub poll : Tick → Watched → Watched
unfolding poll_answered
poll t w = poll_answered t t.mtime w

-- `configWatcherLoop`; `none` if the flag is up at every test.
unfoldable pub config_watcher_loop : List Tick → Watched → Option Watched
config_watcher_loop [] w = none
config_watcher_loop (t ∷ ts) w =
    let rest = config_watcher_loop ts (poll t w) in if not t.up then some w else rest
