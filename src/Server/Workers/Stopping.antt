-- ===== src/Server/Workers/Stopping.antt =====
-- The worker threads (src/simple-ntpd/core/server.cpp): what a start can come to, and that a stop ends.
use simple_ntpd.Common.{
  ℕ, zero, suc, ◌+◌, ◌<◌, ◌≡◌, ◌⊎◌, inl, inr, refl, ap, subst, ◌∙◌, arith, Bool, true, false,
}
use simple_ntpd.Server.Workers.{
  Phase, creating, serving, joining, Workers, before_start, WorkerStep, create, raise_flag,
  lower_flag, enter_loop, skip_loop, leave_loop, WorkerRun, stay, and_then,
}

-- The flag is up exactly while the server serves, and no thread is lost.
abbrev is_up : Phase → Bool
is_up creating = false
is_up serving = true
is_up joining = false

abbrev total : Workers → ℕ
total w = w.to_create + w.created + w.looping + w.ended

pub record IsConsistent (n : ℕ) (w : Workers) : Type 0 where
  pub flag : w.workers_running ≡ is_up w.phase
  pub all_there : total w ≡ n
  pub all_created : (w.phase ≡ creating) ⊎ (w.to_create ≡ 0)

step-IsConsistent : (n : ℕ) {v w : Workers} → WorkerStep v w → IsConsistent n v → IsConsistent n w
step-IsConsistent n (create m e f) c = record {
  flag = c.flag;
  all_there = omega (arith, f, c.all_there);
  all_created = inl e;
}
step-IsConsistent n (raise_flag e f) c = record {
  flag = refl;
  all_there = c.all_there;
  all_created = inr f;
}
step-IsConsistent n {v} (lower_flag e) c = record {
  flag = refl;
  all_there = c.all_there;
  all_created = elim c.all_created [ inl early ↦ absurd (cc) | inr created_all ↦ inr created_all ];
}
step-IsConsistent n (enter_loop m e f) c = record {
  flag = c.flag;
  all_there = omega (arith, e, c.all_there);
  all_created = c.all_created;
}
step-IsConsistent n (skip_loop m e f) c = record {
  flag = c.flag;
  all_there = omega (arith, e, c.all_there);
  all_created = c.all_created;
}
step-IsConsistent n (leave_loop m e f) c = record {
  flag = c.flag;
  all_there = omega (arith, e, c.all_there);
  all_created = c.all_created;
}

run-IsConsistent : (n : ℕ) {w : Workers} → WorkerRun (before_start n) w → IsConsistent n w
run-IsConsistent n stay = record { flag = refl; all_there = omega arith; all_created = inl refl }
run-IsConsistent n (and_then run step) = step-IsConsistent n step (run-IsConsistent n run)

stopping_step :
    {w v : Workers}
    → WorkerStep w v
    → w.phase ≡ joining
    → w.workers_running ≡ false
    → (v.phase ≡ joining) × (v.created + v.looping < w.created + w.looping)
stopping_step (create m e f) p q = absurd (cc)
stopping_step (raise_flag e f) p q = absurd (cc)
stopping_step (lower_flag e) p q = absurd (cc)
stopping_step (enter_loop m e f) p q = absurd (cc)
stopping_step (skip_loop m e f) p q = (p, omega (arith, e))
stopping_step (leave_loop m e f) p q = (p, omega (arith, e))

ℕ_cases : (n : ℕ) → (n ≡ 0) ⊎ ((m : ℕ) × (n ≡ suc m))
ℕ_cases zero = inl refl
ℕ_cases (suc m) = inr (m, refl)

stopping_goes_on :
    (n : ℕ) (w : Workers)
    → IsConsistent n w
    → w.phase ≡ joining
    → w.workers_running ≡ false
    → (w.ended ≡ n) ⊎ ((v : Workers) × WorkerStep w v)
stopping_goes_on n w c p down = elim (ℕ_cases w.created) [
  | inr (m, e) ↦ inr (_, skip_loop m e down)
  | inl none_created ↦ elim (ℕ_cases w.looping) [
    | inr (m, e) ↦ inr (_, leave_loop m e down)
    | inl none_looping ↦ elim c.all_created [
      | inl early ↦ absurd (cc)
      | inr all ↦ inl (omega (arith, none_created, none_looping, all, c.all_there))
    ]
  ]
]

-- In every state of the worker threads that a start of n threads and a stop reach, either all n
-- have ended or some thread can take a step, and every step leaves fewer threads that have not
-- ended.
pub stop_progress :
    (n : ℕ) (w : Workers)
    → WorkerRun (before_start n) w
    → w.phase ≡ joining
    → ((w.ended ≡ n) ⊎ ((v : Workers) × WorkerStep w v))
      × ((v : Workers)
          → WorkerStep w v
          → (v.phase ≡ joining) × (v.created + v.looping < w.created + w.looping))
stop_progress n w run stopping =
    let consistent : IsConsistent n w = run-IsConsistent n run in
    let down : w.workers_running ≡ false = consistent.flag ∙ ap is_up stopping in
    (stopping_goes_on n w consistent stopping down, λ v step. stopping_step step stopping down)

-- So many threads are to be created, and so many have tested the flag before it was raised.
abbrev skipped : ℕ → ℕ → Workers
skipped m k = record (before_start m) { ended = k }

skipping : (k m n : ℕ) → n ≡ k + m → WorkerRun (before_start n) (skipped m k)
skipping zero m n e = subst (λ j. WorkerRun (before_start n) (skipped j 0)) (omega (arith, e)) stay
skipping (suc k) m n e =
    let before : WorkerRun (before_start n) (skipped (suc m) k) =
      skipping k (suc m) n (omega (arith, e)) in
    subst (λ j. WorkerRun (before_start n) (skipped m j)) (omega arith)
      (and_then (and_then before (create m refl refl)) (skip_loop 0 refl refl))

-- For every number of worker threads there is an order of the steps in which the start is done
-- and the flag is raised and all worker threads have ended.
workers_may_all_end :
    (n : ℕ)
    → WorkerRun
        (before_start n)
        (record (before_start 0) { phase = serving; workers_running = true; ended = n })
workers_may_all_end n = and_then (skipping n 0 n (omega arith)) (raise_flag refl refl)
