-- ===== src/Workflow/WorkUnit/Budget.antt =====
-- The retry budgets of crates/domain/src/workflow/work_unit.rs over whole histories of commands.
use video_captioner_r.Prelude.{
  refl, ◌-◌, ℕ, zero, suc, ◌+◌, ◌<◌, ◌≤◌, ◌≡◌, String, true, false, ◌||◌, List, [], ◌∷◌, some, min,
  arith,
}
use video_captioner_r.Workflow.WorkUnit.{
  WorkUnit, pending, running, failed, is_deterministic_work_unit_error, is_oom_error,
  may_auto_retry, may_oom_strategy_retry,
}
use video_captioner_r.Workflow.WorkUnit.Machine.{
  Command, Answer, lease_command, auto_retry_command, oom_command, requeued, gave_up, step, run,
}

abbrev one_if_requeued : Answer → ℕ
one_if_requeued requeued = 1
one_if_requeued _ = 0

-- How many automatic requeues one command grants, and how many out-of-memory ones.
abbrev auto_granted : WorkUnit → Command → ℕ
auto_granted u (auto_retry_command code) = one_if_requeued (step u (auto_retry_command code)).1
auto_granted u _ = 0

abbrev oom_granted : WorkUnit → Command → ℕ
oom_granted u oom_command = one_if_requeued (step u oom_command).1
oom_granted u _ = 0

abbrev pub auto_requeues : WorkUnit → List Command → ℕ
auto_requeues u [] = 0
auto_requeues u (c ∷ cs) = auto_granted u c + auto_requeues (step u c).0 cs

abbrev pub oom_requeues : WorkUnit → List Command → ℕ
oom_requeues u [] = 0
oom_requeues u (c ∷ cs) = oom_granted u c + oom_requeues (step u c).0 cs

auto_granted-step :
    (u : WorkUnit) (c : Command) → auto_granted u c + min u.attempt 2 ≤ min (step u c).0.attempt 2
unfolding step may_auto_retry
auto_granted-step u c = ground arith

oom_granted-step :
    (u : WorkUnit) (c : Command)
    → oom_granted u c + min u.oom_strategy_retries 1 ≤ min (step u c).0.oom_strategy_retries 1
unfolding step may_oom_strategy_retry
oom_granted-step u c = ground arith

-- In any history at most two requeues are granted automatically, less the attempts that the
-- unit has already behind it.
pub auto_requeues_bounded :
    (u : WorkUnit) (cs : List Command) → auto_requeues u cs + min u.attempt 2 ≤ 2
auto_requeues_bounded u [] = omega arith
auto_requeues_bounded u (c ∷ cs) =
    omega (arith, auto_granted-step u c, auto_requeues_bounded (step u c).0 cs)

-- In any history at most one requeue changes the strategy after running out of memory.
pub oom_requeues_bounded :
    (u : WorkUnit) (cs : List Command) → oom_requeues u cs + min u.oom_strategy_retries 1 ≤ 1
oom_requeues_bounded u [] = omega arith
oom_requeues_bounded u (c ∷ cs) =
    omega (arith, oom_granted-step u c, oom_requeues_bounded (step u c).0 cs)

-- A failure with a deterministic code ends a running unit at once as failed with that code, and
-- leaves the attempt counter alone.
deterministic_gives_up :
    (u : WorkUnit) (code : String)
    → u.status ≡ running
    → is_deterministic_work_unit_error code ≡ true
    → ((step u (auto_retry_command code)).1 ≡ gave_up)
      × ((step u (auto_retry_command code)).0.status ≡ failed)
      × ((step u (auto_retry_command code)).0.error_code ≡ some code)
      × ((step u (auto_retry_command code)).0.attempt ≡ u.attempt)
unfolding step may_auto_retry
deterministic_gives_up u code s d = ground arith

-- A worker that leases the unit and fails on it, time after time.
abbrev pub attempts : ℕ → String → ℕ → ℕ → String → List Command
attempts zero owner now_ms expires_at_ms code = []
attempts (suc k) owner now_ms expires_at_ms code =
    lease_command owner now_ms expires_at_ms
    ∷ auto_retry_command code
    ∷ attempts k owner now_ms expires_at_ms code

attempt_requeued :
    (u : WorkUnit) (owner code : String) (now_ms expires_at_ms : ℕ)
    → u.status ≡ pending
    → now_ms < expires_at_ms
    → is_deterministic_work_unit_error code || is_oom_error code ≡ false
    → u.attempt < 2
    → let u' = run u (attempts 1 owner now_ms expires_at_ms code) in
      (u'.status ≡ pending) × (u'.attempt ≡ suc u.attempt)
unfolding run step may_auto_retry
attempt_requeued u owner code now_ms expires_at_ms p t r a = ground arith

attempt_failed :
    (u : WorkUnit) (owner code : String) (now_ms expires_at_ms : ℕ)
    → u.status ≡ pending
    → now_ms < expires_at_ms
    → is_deterministic_work_unit_error code || is_oom_error code ≡ false
    → 2 ≤ u.attempt
    → let u' = run u (attempts 1 owner now_ms expires_at_ms code) in
      (u'.status ≡ failed) × (u'.error_code ≡ some code) × (u'.attempt ≡ u.attempt)
unfolding run step may_auto_retry
attempt_failed u owner code now_ms expires_at_ms p t r a = ground arith

-- The attempts of a unit that has `k` requeues left.
exhausts :
    (k : ℕ) (u : WorkUnit) (owner code : String) (now_ms expires_at_ms : ℕ)
    → u.status ≡ pending
    → now_ms < expires_at_ms
    → is_deterministic_work_unit_error code || is_oom_error code ≡ false
    → k ≡ 2 - u.attempt
    → let u' = run u (attempts (suc k) owner now_ms expires_at_ms code) in
      (u'.status ≡ failed) × (u'.error_code ≡ some code) × (u'.attempt ≡ u.attempt + k)
unfolding run
exhausts zero u owner code now_ms expires_at_ms p t r a =
    let (s, e, n) = attempt_failed u owner code now_ms expires_at_ms p t r (omega arith) in
    (s, e, omega arith)
exhausts (suc k) u owner code now_ms expires_at_ms p t r a =
    let (p', a') = attempt_requeued u owner code now_ms expires_at_ms p t r (omega arith) in
    let (s, e, n) =
      exhausts k (run u (attempts 1 owner now_ms expires_at_ms code)) owner code now_ms
        expires_at_ms p' t r (omega arith) in
    (s, e, omega arith)

-- A pending unit, whatever its attempt counter, that is leased and fails again and again with
-- an error that is neither deterministic nor out of memory ends as failed with that error after
-- one attempt more than the requeues that its counter leaves of two, and each of these requeues
-- raises the counter by one.
pub attempts_exhaust :
    (u : WorkUnit) (owner code : String) (now_ms expires_at_ms : ℕ)
    → u.status ≡ pending
    → now_ms < expires_at_ms
    → is_deterministic_work_unit_error code || is_oom_error code ≡ false
    → let u' = run u (attempts (suc (2 - u.attempt)) owner now_ms expires_at_ms code) in
      (u'.status ≡ failed)
      × (u'.error_code ≡ some code)
      × (u'.attempt ≡ u.attempt + (2 - u.attempt))
attempts_exhaust u owner code now_ms expires_at_ms p t r =
    exhausts (2 - u.attempt) u owner code now_ms expires_at_ms p t r refl
