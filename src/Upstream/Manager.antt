-- ===== src/Upstream/Manager.antt =====
-- The thread of `UpstreamSyncManager` (src/simple-ntpd/core/upstream_sync.cpp): `start`, `stop` and
-- `syncLoop`. The readings of `running_` and the answers of the network are arguments.
pub mod Rounds
use simple_ntpd.Common.{
  ℕ, suc, ◌+◌, ◌≡◌, refl, ap, sym, ◌∙◌, Bool, true, false, not, Option, none, some, List, [], ◌∷◌,
  ◌++◌, All, if◌then◌else◌, if-true, if-false, length,
}
use simple_ntpd.Common.Int.{ℤ}
use simple_ntpd.Common.Text.{Bytes}
use simple_ntpd.Upstream.{SyncState, Network, initial_sync, sync_once, UpstreamSyncResult}

-- `running_`, and whether `sync_thread_` is a thread that is not joined.
pub record SyncManager : Type 0 where
  pub running : Bool
  pub joinable : Bool
  pub sync : SyncState

abbrev pub new_manager : SyncManager
new_manager = record { running = false; joinable = false; sync = initial_sync }

-- `none` is `std::terminate`, for an assignment to a thread that is not joined.
unfoldable pub start : SyncManager → Option SyncManager
start m =
    if m.running
    then some m
    else if m.joinable
    then none
    else some (record m { running = true; joinable = true })

-- With a thread to join it waits for the end of `syncLoop`.
unfoldable pub stop : SyncManager → SyncManager
stop m = if not m.running then m else record m { running = false; joinable = false }

-- A call of `syncOnce`: the servers with what the network answers, and the time.
pub record Round : Type 0 where
  pub servers : List (Bytes × Network)
  pub now : ℤ

abbrev pub after_round : Round → SyncState → SyncState
after_round r s = (sync_once r.servers r.now s).0

-- A turn of the loop: the reading of the flag at the test, the one behind the pause, and the
-- round.
pub record Pass : Type 0 where
  pub up_at_test : Bool
  pub up_after_pause : Bool
  pub round : Round

-- The loop of `syncLoop`; `none` as long as the flag is up.
unfoldable pub sync_turns : List Pass → SyncState → Option SyncState
sync_turns [] s = none
sync_turns (p ∷ ps) s =
    let rest = sync_turns ps (after_round p.round s) in
    if not p.up_at_test then some s else if not p.up_after_pause then some s else rest

unfoldable pub sync_loop : Round → List Pass → SyncState → Option SyncState
unfolding sync_turns
sync_loop first passes s = sync_turns passes (after_round first s)
