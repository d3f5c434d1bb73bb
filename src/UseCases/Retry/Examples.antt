-- ===== src/UseCases/Retry/Examples.antt =====
-- The theorems on retries at concrete jobs.
use video_captioner_r.Workflow.Stage.{
  StageState, StageStatus, JobStatus, probe, extract_audio, asr, split, correct, translate, export,
}
use video_captioner_r.Workflow.Job.{Job, fresh_stage, kinds}
use video_captioner_r.Workflow.Job.Invariant.{IsValid}
use video_captioner_r.Workflow.Job.Lifecycle.{prepare_retry, reset_from}
use video_captioner_r.Workflow.Job.Retry.{retried}
use video_captioner_r.Workflow.WorkUnit.{
  WorkUnit, WorkUnitStatus, done, running, invalidate_artifact_for_recovery,
}
use video_captioner_r.UseCases.{Versioned, gives}
use video_captioner_r.UseCases.Retry.{
  Ports, RetryJobCommand, RetryTransactionRequest, execute, stage_rank, resolve_start_stage,
}
use video_captioner_r.UseCases.Retry.Stages.{Waits}
use video_captioner_r.UseCases.Retry.Transaction.{retry_transaction, running_unit_refuses}
use video_captioner_r.Prelude.{
  All, Bool, [], arith, drop, false, none, ok, refl, some, ℕ, ◌∷◌, ◌≡◌, ◌≤◌, String,
}

abbrev probed : StageState
probed = record {
  kind = probe;
  status = StageStatus.done;
  artifact = some (record {
    id = "a";
    stage = probe;
    path = "p";
    content_hash = "c";
    schema_version = 1;
    producer_fingerprint = "f";
  });
}

abbrev failed_stage : StageState
failed_stage = record (fresh_stage extract_audio) { status = StageStatus.failed }

abbrev failed_job : Job
failed_job = record {
  id = "j";
  batch_id = none;
  execution_snapshot_id = some "s";
  profile_revision = "r";
  source_path = "v.mp4";
  stages =
      probed
      ∷ failed_stage
      ∷ fresh_stage asr
      ∷ fresh_stage split
      ∷ fresh_stage correct
      ∷ fresh_stage translate
      ∷ fresh_stage export
      ∷ [];
  status = JobStatus.failed;
  cancel_requested = false;
  retry_attempt = 0;
  retry_generation = 0;
}

failed_job-IsValid : IsValid failed_job
failed_job-IsValid = record { pipeline = refl; in_order = refl; artifacts = refl }

abbrev stored_job : Versioned Job
stored_job = record { value = failed_job; version = 4 }

abbrev unit_with : WorkUnitStatus → Versioned WorkUnit
unit_with status = record {
  value = record {
    id = "u";
    job_id = "j";
    stage = asr;
    unit_kind = "chunk";
    unit_index = 0;
    input_hash = "h";
    status = status;
    attempt = 0;
    oom_strategy_retries = 0;
    lease = none;
    error_code = none;
    artifact = none;
  };
  version = 2;
}

-- A snapshot is its output path, and a command too.
abbrev ports_with : WorkUnitStatus → Ports String String
ports_with status = record {
  load_job = λ id. gives (some stored_job);
  load_execution_snapshot = λ id. gives (some "out.srt");
  list_for_job = λ id. gives (unit_with status ∷ []);
  load_batch = λ id. gives none;
  apply_retry = λ request. gives (none, request.job.0);
  output_path = λ s. s;
  from_snapshot = λ s. gives s;
}

abbrev command : Bool → RetryJobCommand
command dry = record { job_id = "j"; from_stage = none; dry_run = dry }

abbrev reset_one : WorkUnit × ℕ
reset_one = (
  record ((unit_with done).value) {
    status = WorkUnitStatus.pending;
    error_code = some "RETRY_INVALIDATED";
  },
  2,
)

abbrev request : RetryTransactionRequest
request = record {
  batch = none;
  job = (retried failed_job 1, 4);
  work_units = reset_one ∷ [];
  event = record {
    job_id = "j";
    start_stage = extract_audio;
    retry_generation = 1;
    invalidated_stages = extract_audio ∷ asr ∷ split ∷ correct ∷ translate ∷ export ∷ [];
  };
}

request_written : (execute (ports_with done) (command false)).0 ≡ request ∷ []
unfolding execute prepare_retry reset_from invalidate_artifact_for_recovery
request_written = refl

retry_transaction_example :
    (false ≡ false)
    × (prepare_retry failed_job none ≡ (retried failed_job 1, ok extract_audio))
    × (request.job ≡ (retried failed_job (stage_rank extract_audio), 4))
    × (request.event.invalidated_stages ≡ drop (stage_rank extract_audio) kinds)
    × All (Waits (stage_rank extract_audio)) (reset_one ∷ [])
retry_transaction_example =
    retry_transaction (ports_with done) (command false) stored_job request refl failed_job-IsValid
      request_written

starts_at_audio : resolve_start_stage failed_job none ≡ gives extract_audio
unfolding resolve_start_stage
starts_at_audio = refl

audio_before_asr : stage_rank extract_audio ≤ stage_rank asr
unfolding stage_rank
audio_before_asr = omega arith

running_unit_refuses_example : (execute (ports_with running) (command false)).0 ≡ []
running_unit_refuses_example =
    running_unit_refuses (ports_with running) (command false) extract_audio stored_job
      (unit_with running ∷ []) 0 (unit_with running) refl starts_at_audio refl refl refl
      audio_before_asr
