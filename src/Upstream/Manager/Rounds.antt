-- ===== src/Upstream/Manager/Rounds.antt =====
-- The thread of `UpstreamSyncManager` (src/simple-ntpd/core/upstream_sync.cpp): what its rounds leave
-- behind, and that its starts and stops keep it joined.
use simple_ntpd.Common.{
  ◌≡◌, ◌⊎◌, inl, inr, refl, ap, ◌∙◌, arith, true, false, not, Option, none, some, List, [], ◌∷◌,
  ◌++◌, All, if◌then◌else◌, if-true, if-false, Bool-cases,
}
use simple_ntpd.Upstream.{SyncState, UpstreamSyncResult, failed_result, best_of, sync_once, adopt}
use simple_ntpd.Upstream.Manager.{
  SyncManager, start, stop, Round, after_round, Pass, sync_turns, sync_loop,
}

-- The outcome of a round that succeeds.
unfoldable pub success_of : Round → Option UpstreamSyncResult
success_of r =
    let best = best_of (failed_result []) r.servers in if best.success then some best else none

abbrev or_else {ℓ} : {A : Type ℓ} → Option A → Option A → Option A
or_else none b = b
or_else (some a) b = some a

-- The last of some rounds that succeeds.
unfoldable pub last_success : List Round → Option UpstreamSyncResult
last_success [] = none
last_success (r ∷ rs) = or_else (last_success rs) (success_of r)

-- The state is that of a result, or the earlier one if there is none.
abbrev pub Keeps : Option UpstreamSyncResult → SyncState → SyncState → Type 0
Keeps none s t = t ≡ s
Keeps (some r) s t =
    (t.synced ≡ true)
    × (t.clock_offset_us ≡ r.offset_us)
    × (t.last_delay_us ≡ r.delay_us)
    × (t.upstream_stratum ≡ r.stratum)
    × (t.synced_upstream ≡ r.server)

after_rounds : List Round → SyncState → SyncState
after_rounds [] s = s
after_rounds (r ∷ rs) s = after_rounds rs (after_round r s)

after_round-Keeps : (r : Round) (s : SyncState) → Keeps (success_of r) s (after_round r s)
unfolding success_of sync_once adopt
after_round-Keeps r s = elim (Bool-cases (best_of (failed_result []) r.servers).success) [
  | inl won ↦ rw won (refl, refl, refl, refl, refl)
  | inr lost ↦ rw lost refl
]

Keeps-trans :
    (later earlier : Option UpstreamSyncResult) (s t u : SyncState)
    → Keeps earlier s t
    → Keeps later t u
    → Keeps (or_else later earlier) s u
Keeps-trans (some r) earlier s t u h k = k
Keeps-trans none none s t u h k = k ∙ h
Keeps-trans none (some r) s t u h k = ground (arith, h, k)

after_rounds-Keeps :
    (rs : List Round) (s : SyncState) → Keeps (last_success rs) s (after_rounds rs s)
unfolding last_success after_rounds
after_rounds-Keeps [] s = refl
after_rounds-Keeps (r ∷ rs) s =
    Keeps-trans (last_success rs) (success_of r) s (after_round r s) _ (after_round-Keeps r s)
      (after_rounds-Keeps rs (after_round r s))

abbrev pub IsUp : Pass → Type 0
IsUp p = (p.up_at_test ≡ true) × (p.up_after_pause ≡ true)

abbrev pub IsDown : Pass → Type 0
IsDown p = (p.up_at_test ≡ false) ⊎ (p.up_after_pause ≡ false)

abbrev pub rounds_of : List Pass → List Round
rounds_of [] = []
rounds_of (p ∷ ps) = p.round ∷ rounds_of ps

sync_turns-after_rounds :
    (up : List Pass) (last : Pass) (rest : List Pass) (s : SyncState)
    → All IsUp up
    → IsDown last
    → sync_turns (up ++ last ∷ rest) s ≡ some (after_rounds (rounds_of up) s)
unfolding sync_turns after_rounds
sync_turns-after_rounds [] last rest s h (inl down) =
    if-true (not last.up_at_test) _ _ (ap not down)
sync_turns-after_rounds [] last rest s h (inr down) = ground arith
sync_turns-after_rounds (p ∷ ps) last rest s ((test, pause), there) down =
    if-false (not p.up_at_test) _ _ (ap not test)
    ∙ if-false (not p.up_after_pause) _ _ (ap not pause)
    ∙ sync_turns-after_rounds ps last rest (after_round p.round s) there down

-- If the flag is up at both readings of some turns and down at one of the next, the loop returns
-- behind the first round and one for each of these turns, and the state is that of the last
-- round that succeeded, or the one before if none did.
sync_loop-last_success :
    (first : Round) (up : List Pass) (last : Pass) (rest : List Pass) (s : SyncState)
    → All IsUp up
    → IsDown last
    → (t : SyncState) × (sync_loop first (up ++ last ∷ rest) s ≡ some t)
      × Keeps (last_success (first ∷ rounds_of up)) s t
unfolding sync_loop after_rounds
sync_loop-last_success first up last rest s h down = (
  after_rounds (first ∷ rounds_of up) s,
  sync_turns-after_rounds up last rest (after_round first s) h down,
  after_rounds-Keeps (first ∷ rounds_of up) s,
)

-- A call of `start` or `stop`.
pub data Call : Type 0 where
  start_call stop_call : Call

unfoldable pub after_calls : List Call → SyncManager → Option SyncManager
after_calls [] m = some m
after_calls (start_call ∷ cs) m = elim (start m) [ none ↦ none | some n ↦ after_calls cs n ]
after_calls (stop_call ∷ cs) m = after_calls cs (stop m)

start-joined :
    (m : SyncManager)
    → m.joinable ≡ m.running
    → (n : SyncManager) × (start m ≡ some n) × (n.joinable ≡ n.running)
unfolding start
start-joined m e = elim (Bool-cases m.running) [
  | inl up ↦ (m, if-true m.running _ _ up, e)
  | inr down ↦ (_, if-false m.running _ _ down ∙ if-false m.joinable _ _ (e ∙ down), refl)
]

stop-joined : (m : SyncManager) → m.joinable ≡ m.running → (stop m).joinable ≡ (stop m).running
unfolding stop
stop-joined m e = ground arith

-- Whatever calls of start and stop follow one another on a manager whose thread is joined exactly
-- if it does not run, none of them ends the program, and the thread is joined exactly if it does
-- not run.
after_calls-joined :
    (cs : List Call) (m : SyncManager)
    → m.joinable ≡ m.running
    → (n : SyncManager) × (after_calls cs m ≡ some n) × (n.joinable ≡ n.running)
unfolding after_calls
after_calls-joined [] m e = (m, refl, e)
after_calls-joined (start_call ∷ cs) m e =
    let (n, started, joined) = start-joined m e in
    rw (after_calls, started) (after_calls-joined cs n joined)
after_calls-joined (stop_call ∷ cs) m e = after_calls-joined cs (stop m) (stop-joined m e)
