-- ===== src/Workflow/Job.antt =====
-- crates/domain/src/workflow/job.rs: a job and its pipeline of stages.
pub mod Stages
pub mod Lifecycle
pub mod Machine
pub mod Gate
pub mod Invariant
pub mod Preserves
pub mod Order
pub mod Errors
pub mod Quiet
pub mod Settled
pub mod Ending
pub mod Retry
pub mod Advance
pub mod Progress
mod Examples
use video_captioner_r.Workflow.Stage.{
  JobStatus, job_is_terminal, StageKind, probe, extract_audio, asr, split, correct, translate,
  export, kind_eq, debug_kind, ArtifactRef, StageStatus, debug_status, is_terminal,
  prerequisite_satisfied, StageState,
}
use video_captioner_r.Prelude.{
  Bool, DomainError, List, Option, Result, String, [], already_terminal, any, err, false, get_elem?,
  if◌then◌else◌, illegal_transition, invalid_argument, map, member_not_found, none, not, ok, panic,
  position, sat_add_u32, set, some, suc, text_id, true, zero, ℕ, ◌+s◌, ◌∷◌,
}

pub record Job : Type 0 where
  pub id : String
  pub batch_id : Option String
  pub execution_snapshot_id : Option String
  pub profile_revision : String
  pub source_path : String
  pub stages : List StageState
  pub status : JobStatus
  pub cancel_requested : Bool
  pub retry_attempt : ℕ
  pub retry_generation : ℕ

abbrev pub kinds : List StageKind
kinds = probe ∷ extract_audio ∷ asr ∷ split ∷ correct ∷ translate ∷ export ∷ []

abbrev pub fresh_stage : StageKind → StageState
fresh_stage kind = record { kind = kind; status = StageStatus.pending; artifact = none }

pub new : String → Option String → String → String → Job
new id batch_id profile_revision source_path = record {
  id = id;
  batch_id = batch_id;
  execution_snapshot_id = none;
  profile_revision = profile_revision;
  source_path = source_path;
  stages = map fresh_stage kinds;
  status = JobStatus.pending;
  cancel_requested = false;
  retry_attempt = 0;
  retry_generation = 0;
}

new_with_snapshot : String → Option String → String → String → String → Job
unfolding new
new_with_snapshot id batch_id execution_snapshot_id profile_revision source_path =
    record (new id batch_id profile_revision source_path) {
      execution_snapshot_id = some execution_snapshot_id;
    }

-- The derived `Debug` and `PartialEq` of the statuses, as far as the code uses them.
abbrev debug_job : JobStatus → String
debug_job JobStatus.pending = "Pending"
debug_job JobStatus.running = "Running"
debug_job JobStatus.done = "Done"
debug_job JobStatus.done_degraded = "DoneDegraded"
debug_job JobStatus.failed = "Failed"
debug_job JobStatus.cancelled = "Cancelled"

abbrev pub job_is_pending : JobStatus → Bool
job_is_pending JobStatus.pending = true
job_is_pending _ = false

abbrev pub job_is_running : JobStatus → Bool
job_is_running JobStatus.running = true
job_is_running _ = false

abbrev job_is_cancelled : JobStatus → Bool
job_is_cancelled JobStatus.cancelled = true
job_is_cancelled _ = false

abbrev pub job_is_retryable : JobStatus → Bool
job_is_retryable JobStatus.failed = true
job_is_retryable JobStatus.done_degraded = true
job_is_retryable JobStatus.cancelled = true
job_is_retryable _ = false

abbrev pub is_pending : StageStatus → Bool
is_pending StageStatus.pending = true
is_pending _ = false

abbrev pub is_running : StageStatus → Bool
is_running StageStatus.running = true
is_running _ = false

-- `Running | Retrying`.
abbrev pub is_active : StageStatus → Bool
is_active StageStatus.running = true
is_active StageStatus.retrying = true
is_active _ = false

-- `Failed | Cancelled | WaitingProvider`.
abbrev pub is_retryable : StageStatus → Bool
is_retryable StageStatus.failed = true
is_retryable StageStatus.cancelled = true
is_retryable StageStatus.waiting_provider = true
is_retryable _ = false

abbrev illegal_job {ℓ} : {A : Type ℓ} → Job → String → Job × Result A
illegal_job j to = (j, err (illegal_transition "Job" (debug_job j.status) to))

abbrev illegal_stage : StageState → String → StageState × Result (Unit {0})
illegal_stage s to = (s, err (illegal_transition "Stage" (debug_status s.status) to))

abbrev missing_stage : StageKind → DomainError
missing_stage kind = member_not_found "Job" (text_id ("stage::" +s debug_kind kind))

pub stage_index : List StageState → StageKind → Option ℕ
stage_index stages kind = position (λ s. kind_eq s.kind kind) stages

-- `let stage = &mut self.stages[index]`, with what the caller does to the stage as a function.
pub with_stage : Job → ℕ → (StageState → StageState × Result (Unit {0})) → Job × Result (Unit {0})
with_stage j index f = elim (get_elem? j.stages index) [
  | none ↦ (j, panic)
  | some stage ↦
      let (stage', result) = f stage in (record j { stages = set j.stages index stage' }, result)
]

pub stage_mut :
    Job → StageKind → (StageState → StageState × Result (Unit {0})) → Job × Result (Unit {0})
unfolding stage_index with_stage
stage_mut j kind f = elim (stage_index j.stages kind) [
  | none ↦ (j, err (missing_stage kind))
  | some index ↦ with_stage j index f
]
