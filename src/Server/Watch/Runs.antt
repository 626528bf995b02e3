-- ===== src/Server/Watch/Runs.antt =====
-- The watcher of the configuration file (src/simple-ntpd/core/server.cpp) at some polls.
use simple_ntpd.Common.{ℕ, ◌≡◌, refl, true, false, none, some, List, [], ◌∷◌, ◌++◌}
use simple_ntpd.Common.Int.{pos}
use simple_ntpd.Common.Text.{codes}
use simple_ntpd.Config.{set_defaults}
use simple_ntpd.Logger.{new_logger}
use simple_ntpd.Server.{new_server}
use simple_ntpd.Server.Watch.{
  Watched, Tick, reload_watched, poll, poll_answered, poll_reading, config_watcher_loop,
}
use simple_ntpd.Server.Watch.Changes.{
  readings, differs, changes, reload_each, config_watcher_loop-reload_each,
}

abbrev watched : Watched
watched = record {
  server = new_server (record set_defaults { last_config_file = codes "c" });
  logger = new_logger;
  last_mtime = some (pos 1);
}

-- A poll that reads such a time, of a file that sets the port.
abbrev polled : ℕ → Tick
polled n = record {
  up = true;
  mtime = some (pos n);
  getenv = λ name. none;
  files = λ path. some (codes "listen_port=124");
}

abbrev unreadable : Tick
unreadable = record (polled 0) { mtime = none }

abbrev ended : Tick
ended = record (polled 3) { up = false }

abbrev ticks : List Tick
ticks = polled 1 ∷ polled 2 ∷ unreadable ∷ polled 2 ∷ []

config_watcher_loop-reload_each_example :
    (v : Watched) × (config_watcher_loop (ticks ++ ended ∷ []) watched ≡ some v)
    × ((v.server, v.logger)
        ≡ reload_each
            (changes watched.last_mtime (readings ticks))
            (watched.server, watched.logger))
config_watcher_loop-reload_each_example =
    config_watcher_loop-reload_each ticks ended [] watched (refl, (refl, (refl, (refl, tt)))) refl

-- Of these polls one reloads.
one_reload : changes watched.last_mtime (readings ticks) ≡ polled 2 ∷ []
unfolding readings changes differs
one_reload = refl

abbrev reread : Watched
reread = reload_watched (polled 2) (record watched { last_mtime = some (pos 2) })

one_round : config_watcher_loop (polled 2 ∷ ended ∷ []) watched ≡ some reread
unfolding config_watcher_loop poll poll_answered poll_reading
one_round = refl
