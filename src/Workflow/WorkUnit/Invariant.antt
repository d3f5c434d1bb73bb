-- ===== src/Workflow/WorkUnit/Invariant.antt =====
-- What holds of a work unit between two commands (crates/domain/src/workflow/work_unit.rs).
use video_captioner_r.Prelude.{
  ℕ, ◌+◌, ◌<◌, List, [], ◌∷◌, All, refl, false, ◌≤◌, ◌≡◌, String, Bool, true, ok, Option, none,
  some, is_some, arith, u32_max,
}
use video_captioner_r.Workflow.Stage.{StageKind, ArtifactRef, kind_eq}
use video_captioner_r.Workflow.WorkUnit.{
  Lease, pending, is_terminal, WorkUnit, running, done, failed, status_eq, new,
}
use video_captioner_r.Workflow.WorkUnit.Machine.{
  Command, lease_command, complete_command, fail_command, auto_retry_command, oom_command,
  cancel_command, recover_command, invalidate_command, retry_command, refused, accepted, step, run,
}

abbrev artifact_fits : StageKind → Option ArtifactRef → Bool
artifact_fits stage none = true
artifact_fits stage (some a) = kind_eq a.stage stage

pub record IsValid (u : WorkUnit) : Type 0 where
  pub lease_iff_running : is_some u.lease ≡ status_eq u.status running
  pub artifact_iff_done : is_some u.artifact ≡ status_eq u.status done
  pub artifact_of_stage : artifact_fits u.stage u.artifact ≡ true
  pub failed_has_code : u.status ≡ failed → is_some u.error_code ≡ true
  pub attempt_fits : u.attempt ≤ u32_max
  pub oom_budget : u.oom_strategy_retries ≤ 1

-- A unit that the constructor accepts satisfies the invariant.
pub unit_new-IsValid :
    (id job_id : String) (stage : StageKind) (unit_kind : String) (unit_index : ℕ)
    (input_hash : String) (u : WorkUnit)
    → new id job_id stage unit_kind unit_index input_hash ≡ ok u
    → IsValid u
unfolding new
unit_new-IsValid id job_id stage unit_kind unit_index input_hash u h = ground arith

-- Every command keeps it, refused or not.
unit_step-IsValid : (u : WorkUnit) (c : Command) → IsValid u → IsValid (step u c).0
unfolding step
unit_step-IsValid u c v = ground arith

-- Whatever commands follow, a valid unit has a lease just while running, an artifact of its own
-- stage just when done, an error code when failed, and counters in their bounds.
pub unit_run-IsValid : (u : WorkUnit) (cs : List Command) → IsValid u → IsValid (run u cs)
unfolding run
unit_run-IsValid u [] v = v
unit_run-IsValid u (c ∷ cs) v = unit_run-IsValid (step u c).0 cs (unit_step-IsValid u c v)

-- A command that is refused leaves every field of the unit as it was.
unit_step-refused_unchanged :
    (u : WorkUnit) (c : Command) → (step u c).1 ≡ refused → (step u c).0 ≡ u
unfolding step
unit_step-refused_unchanged u c h = ground arith

-- No command changes what identifies the unit, and none lowers the attempt counter.
step-identity :
    (u : WorkUnit) (c : Command)
    → u.attempt ≤ u32_max
    → let u' = (step u c).0 in
      (u'.id ≡ u.id)
      × (u'.job_id ≡ u.job_id)
      × (u'.stage ≡ u.stage)
      × (u'.unit_kind ≡ u.unit_kind)
      × (u'.unit_index ≡ u.unit_index)
      × (u'.input_hash ≡ u.input_hash)
      × (u.attempt ≤ u'.attempt)
unfolding step
step-identity u c h = ground arith

-- The two commands that open a finished unit again.
abbrev reopens : Command → Bool
reopens (invalidate_command code) = true
reopens retry_command = true
reopens _ = false

-- A valid finished unit refuses, unchanged, every command but an explicit retry and the
-- invalidation of its artifact.
pub step_of_terminal :
    (u : WorkUnit) (c : Command)
    → IsValid u
    → is_terminal u.status ≡ true
    → reopens c ≡ false
    → step u c ≡ (u, refused)
unfolding step
step_of_terminal u c v t r = ground arith

-- What another worker may try on a leased unit: to lease it, or to recover it before it expires.
abbrev Rival : Lease → Command → Type 0
Rival lease (lease_command owner now_ms expires_at_ms) = Unit {0}
Rival lease (recover_command now_ms) = now_ms < lease.expires_at_ms
Rival lease _ = ⊥

step_of_Rival :
    (u : WorkUnit) (lease : Lease) (c : Command)
    → u.status ≡ running
    → u.lease ≡ some lease
    → Rival lease c
    → step u c ≡ (u, refused)
unfolding step
step_of_Rival u lease (lease_command owner now_ms expires_at_ms) s l r = ground arith
step_of_Rival u lease (recover_command now_ms) s l r = ground arith
step_of_Rival u lease (complete_command a) s l r = absurd r
step_of_Rival u lease (fail_command a) s l r = absurd r
step_of_Rival u lease (auto_retry_command a) s l r = absurd r
step_of_Rival u lease oom_command s l r = absurd r
step_of_Rival u lease cancel_command s l r = absurd r
step_of_Rival u lease (invalidate_command a) s l r = absurd r
step_of_Rival u lease retry_command s l r = absurd r

-- While a unit is leased, no number of other leases and of recoveries before its expiry changes
-- it.
pub lease_exclusive :
    (u : WorkUnit) (lease : Lease) (cs : List Command)
    → u.status ≡ running
    → u.lease ≡ some lease
    → All (Rival lease) cs
    → run u cs ≡ u
unfolding run
lease_exclusive u lease [] s l rs = refl
lease_exclusive u lease (c ∷ cs) s l rs =
    rw (step_of_Rival u lease c s l rs.0) (lease_exclusive u lease cs s l rs.1)

-- Once the lease of a running unit has expired, recovery hands the unit back as pending without
-- a lease, with the attempt counted, if the counter is below its largest value.
recover-expired_lease :
    (u : WorkUnit) (lease : Lease) (now_ms : ℕ)
    → u.status ≡ running
    → u.lease ≡ some lease
    → lease.expires_at_ms ≤ now_ms
    → u.attempt < u32_max
    → step u (recover_command now_ms)
      ≡ (record u { status = pending; lease = none; attempt = u.attempt + 1 }, accepted)
unfolding step
recover-expired_lease u lease now_ms s l e b = ground arith
