-- ===== src/Server/Workers.antt =====
-- The worker threads (src/simple-ntpd/core/server.cpp): `startWorkerThreads`, `stopWorkerThreads` and
-- the tests of `workers_running_` in `workerThreadFunction`, in every order that the threads can take.
pub mod Stopping
use simple_ntpd.Common.{ℕ, suc, ◌+◌, ◌≡◌, refl, Bool, true, false}

-- Where the thread is that starts and stops the workers: in the loop that creates them, behind it
-- with the flag raised, or joining them.
pub data Phase : Type 0 where
  creating serving joining : Phase

pub record Workers : Type 0 where
  pub phase : Phase
  pub workers_running : Bool
  pub to_create : ℕ  -- not yet created
  pub created : ℕ  -- created, and before their first test of the flag
  pub looping : ℕ  -- between two tests
  pub ended : ℕ

-- The beginning of `startWorkerThreads`, for so many threads.
abbrev pub before_start : ℕ → Workers
before_start n = record {
  phase = creating;
  workers_running = false;
  to_create = n;
  created = 0;
  looping = 0;
  ended = 0;
}

pub data WorkerStep : Workers → Workers → Type 0 where
  create :
      {w : Workers} (n : ℕ)
      → w.phase ≡ creating
      → w.to_create ≡ suc n
      → WorkerStep w (record w { to_create = n; created = w.created + 1 })
  raise_flag :
      {w : Workers}
      → w.phase ≡ creating
      → w.to_create ≡ 0
      → WorkerStep w (record w { phase = serving; workers_running = true })
  lower_flag :
      {w : Workers}
      → w.phase ≡ serving
      → WorkerStep w (record w { phase = joining; workers_running = false })
  enter_loop :
      {w : Workers} (n : ℕ)
      → w.created ≡ suc n
      → w.workers_running ≡ true
      → WorkerStep w (record w { created = n; looping = w.looping + 1 })
  skip_loop :
      {w : Workers} (n : ℕ)
      → w.created ≡ suc n
      → w.workers_running ≡ false
      → WorkerStep w (record w { created = n; ended = w.ended + 1 })
  leave_loop :
      {w : Workers} (n : ℕ)
      → w.looping ≡ suc n
      → w.workers_running ≡ false
      → WorkerStep w (record w { looping = n; ended = w.ended + 1 })

pub data WorkerRun : Workers → Workers → Type 0 where
  stay : {w : Workers} → WorkerRun w w
  and_then : {u v w : Workers} → WorkerRun u v → WorkerStep v w → WorkerRun u w
