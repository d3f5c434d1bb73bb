-- ===== src/UseCases/Retry.antt =====
-- crates/core/src/use_cases/retry_job.rs: an explicit retry of a job.
-- A snapshot and the command made from it are types of their own, which the code passes on. The
-- instant in the outbox event is left out.
pub mod Stages
pub mod Transaction
mod Examples
use video_captioner_r.Workflow.Stage.{
  translate, split, probe, extract_audio, export, correct, asr, StageKind, StageState,
  prerequisite_satisfied, JobStatus,
}
use video_captioner_r.Workflow.Job.{Job, job_is_retryable, is_retryable}
use video_captioner_r.Workflow.Job.Lifecycle.{prepare_retry}
use video_captioner_r.Workflow.WorkUnit.{
  failed, cancelled, done, pending, running, WorkUnit, retry, invalidate_artifact_for_recovery,
}
use video_captioner_r.Workflow.Batch.{Batch, prepare_retry as batch_retry}
use video_captioner_r.UseCases.{
  panics, AppResult, Versioned, ok_or, changed, gives, fails, invalid, ◌>>=◌,
}
use video_captioner_r.Prelude.{
  not, Bool, List, Option, [], any, find, if◌then◌else◌, leb, ltb, map, none, some, true, ℕ, ◌&&◌,
  ◌||◌, ◌∷◌, String,
}

pub record RetryJobCommand : Type 0 where
  pub job_id : String
  pub from_stage : Option StageKind
  pub dry_run : Bool

pub record RetryPlan : Type 0 where
  pub job_id : String
  pub batch_id : Option String
  pub start_stage : StageKind
  pub reused_artifacts : List StageKind
  pub invalidated_stages : List StageKind
  pub work_units_to_reset : List String
  pub output_path : String
  pub needs_runtime : Bool
  pub dry_run : Bool

pub data RetryFault : Type 0 where
  job_not_found : String → RetryFault
  not_retryable : String → JobStatus → RetryFault
  no_snapshot : String → RetryFault
  snapshot_not_found : String → String → RetryFault
  no_failed_stage : RetryFault
  unit_still_running : String → RetryFault
  batch_not_found : String → String → RetryFault

abbrev pub App : Type 0 → Type 0
App A = AppResult RetryFault A

unfoldable pub stage_rank : StageKind → ℕ
stage_rank probe = 0
stage_rank extract_audio = 1
stage_rank asr = 2
stage_rank split = 3
stage_rank correct = 4
stage_rank translate = 5
stage_rank export = 6

unfoldable pub resolve_start_stage : Job → Option StageKind → App StageKind
resolve_start_stage j (some kind) = gives kind
resolve_start_stage j none = elim (find (λ s. is_retryable s.status) j.stages) [
  | none ↦ fails (invalid no_failed_stage)
  | some s ↦ gives s.kind
]

-- The loop over the stages; those reused and those invalidated.
unfoldable pub partition_stages : List StageState → ℕ → List StageKind × List StageKind
unfolding stage_rank
partition_stages [] start_rank = ([], [])
partition_stages (s ∷ ss) start_rank =
    let (reused, invalidated) = partition_stages ss start_rank in
    if ltb (stage_rank s.kind) start_rank && prerequisite_satisfied s.status
    then (s.kind ∷ reused, invalidated)
    else if leb start_rank (stage_rank s.kind)
    then (reused, s.kind ∷ invalidated)
    else (reused, invalidated)

unfoldable pub reset_unit : Versioned WorkUnit → App (WorkUnit × ℕ)
reset_unit u = elim u.value.status [
  | failed ↦ changed (retry u.value) >>= λ r. gives (r.0, u.version)
  | cancelled ↦ changed (retry u.value) >>= λ r. gives (r.0, u.version)
  | done ↦ changed (invalidate_artifact_for_recovery u.value "RETRY_INVALIDATED") >>= λ r.
      gives (r.0, u.version)
  | pending ↦ gives (u.value, u.version)
  | running ↦ fails (invalid (unit_still_running u.value.id))
]

-- The units of the start stage and of later ones; the first failure ends the loop.
unfoldable pub reset_units : ℕ → List (Versioned WorkUnit) → App (List (WorkUnit × ℕ))
unfolding reset_unit stage_rank
reset_units start_rank [] = gives []
reset_units start_rank (u ∷ us) =
    let rest = reset_units start_rank us in
    if leb start_rank (stage_rank u.value.stage)
    then (reset_unit u >>= λ r. rest >>= λ rs. gives (r ∷ rs))
    else rest

-- `matches!` with every kind of stage.
abbrev is_runtime_stage : StageKind → Bool
is_runtime_stage asr = true
is_runtime_stage split = true
is_runtime_stage correct = true
is_runtime_stage translate = true
is_runtime_stage export = true
is_runtime_stage probe = true
is_runtime_stage extract_audio = true

-- What the outbox event tells.
pub record RetryEvent : Type 0 where
  pub job_id : String
  pub start_stage : StageKind
  pub retry_generation : ℕ
  pub invalidated_stages : List StageKind

pub record RetryTransactionRequest : Type 0 where
  pub batch : Option (Batch × ℕ)
  pub job : Job × ℕ
  pub work_units : List (WorkUnit × ℕ)
  pub event : RetryEvent

abbrev ids_of : List (WorkUnit × ℕ) → List String
ids_of units = map (λ (u : WorkUnit × ℕ). u.0.id) units

-- The ports, with the answers they give.
pub record Ports (Snapshot Command : Type 0) : Type 0 where
  pub load_job : String → App (Option (Versioned Job))
  pub load_execution_snapshot : String → App (Option Snapshot)
  pub list_for_job : String → App (List (Versioned WorkUnit))
  pub load_batch : String → App (Option (Versioned Batch))
  pub apply_retry : RetryTransactionRequest → App (Option Batch × Job)
  pub output_path : Snapshot → String
  pub from_snapshot : Snapshot → App Command

pub record RetryJobResponse (Command : Type 0) : Type 0 where
  pub plan : RetryPlan
  pub command : Option Command
  pub batch : Option Batch
  pub job : Option Job

module _ {Snapshot Command : Type 0} (ports : Ports Snapshot Command) where
  -- The plan, with the request of the transaction if it is not a dry run.
  abbrev pub Prepared : Type 0
  Prepared = RetryPlan × Option RetryTransactionRequest × Snapshot

  unfoldable pub update_batch : Job → String → App (Option (Batch × ℕ))
  update_batch j job_id = elim j.batch_id [
    | none ↦ gives none
    | some id ↦ do
      loaded ← ports.load_batch id
      batch ← ok_or (batch_not_found id job_id) loaded
      updated ← changed (batch_retry batch.value job_id)
      gives (some (updated.0, batch.version))
  ]

  unfoldable pub make_plan :
      RetryJobCommand → Versioned Job → Snapshot → StageKind → List (WorkUnit × ℕ) → RetryPlan
  unfolding partition_stages stage_rank
  make_plan command job snapshot start_stage units =
      let (reused, invalidated) = partition_stages job.value.stages (stage_rank start_stage) in
      record {
        job_id = command.job_id;
        batch_id = job.value.batch_id;
        start_stage = start_stage;
        reused_artifacts = reused;
        invalidated_stages = invalidated;
        work_units_to_reset = ids_of units;
        output_path = ports.output_path snapshot;
        needs_runtime = any is_runtime_stage invalidated || is_runtime_stage start_stage;
        dry_run = command.dry_run;
      }

  -- `job` is as it was loaded, `retried` behind `prepare_retry`.
  unfoldable pub make_request :
      RetryJobCommand
      → Versioned Job
      → Job
      → Option (Batch × ℕ)
      → StageKind
      → List (WorkUnit × ℕ)
      → RetryTransactionRequest
  unfolding partition_stages stage_rank
  make_request command job retried batch start_stage units = record {
    batch = batch;
    job = (retried, job.version);
    work_units = units;
    event = record {
      job_id = command.job_id;
      start_stage = start_stage;
      retry_generation = retried.retry_generation;
      invalidated_stages = (partition_stages job.value.stages (stage_rank start_stage)).1;
    };
  }

  unfoldable pub finish_plan :
      RetryJobCommand → Versioned Job → Snapshot → StageKind → List (WorkUnit × ℕ) → App Prepared
  unfolding make_plan make_request update_batch
  finish_plan command job snapshot start_stage units =
      let plan = make_plan command job snapshot start_stage units in
      changed (prepare_retry job.value command.from_stage) >>= λ retried.
      if command.dry_run
      then gives (plan, none, snapshot)
      else (update_batch retried.0 command.job_id >>= λ batch.
          gives (plan, some (make_request command job retried.0 batch start_stage units), snapshot))

  unfoldable pub plan_units : RetryJobCommand → Versioned Job → Snapshot → StageKind → App Prepared
  unfolding reset_units finish_plan stage_rank
  plan_units command job snapshot start_stage = ports.list_for_job command.job_id >>= λ units.
      reset_units (stage_rank start_stage) units >>= finish_plan command job snapshot start_stage

  unfoldable pub plan_from : RetryJobCommand → Versioned Job → Snapshot → App Prepared
  unfolding resolve_start_stage plan_units
  plan_from command job snapshot =
      resolve_start_stage job.value command.from_stage >>= plan_units command job snapshot

  unfoldable pub plan_snapshot : RetryJobCommand → Versioned Job → String → App Prepared
  unfolding plan_from
  plan_snapshot command job snapshot_id = ports.load_execution_snapshot snapshot_id >>= λ found.
      ok_or (snapshot_not_found snapshot_id command.job_id) found >>= plan_from command job

  unfoldable pub plan_job : RetryJobCommand → Versioned Job → App Prepared
  unfolding plan_snapshot
  plan_job command job =
      if not (job_is_retryable job.value.status)
      then fails (invalid (not_retryable command.job_id job.value.status))
      else (ok_or (no_snapshot command.job_id) job.value.execution_snapshot_id
          >>= plan_snapshot command job)

  unfoldable pub prepare : RetryJobCommand → App Prepared
  unfolding plan_job
  prepare command = ports.load_job command.job_id >>= λ loaded.
      ok_or (job_not_found command.job_id) loaded >>= plan_job command

  -- The requests to write, and the result.
  unfoldable pub execute :
      RetryJobCommand → List RetryTransactionRequest × App (RetryJobResponse Command)
  unfolding prepare
  execute command = elim (prepare command) [
    | panics ↦ ([], panics)
    | fails why ↦ ([], fails why)
    | gives (plan, none, snapshot) ↦
        ([], gives (record { plan = plan; command = none; batch = none; job = none }))
    | gives (plan, some request, snapshot) ↦ (
      request ∷ [],
      do
        result ← ports.apply_retry request
        made ← ports.from_snapshot snapshot
        gives (record { plan = plan; command = some made; batch = result.0; job = some result.1 }),
    )
  ]
