-- ===== src/Workflow/Job/Examples.antt =====
-- The theorems of crates/domain/src/workflow/job.rs at concrete jobs.
use video_captioner_r.Workflow.Stage.{
  StageKind, StageStatus, StageState, JobStatus, ArtifactRef, probe, extract_audio, translate,
  correct,
}
use video_captioner_r.Workflow.Job.{Job, new, kinds, fresh_stage}
use video_captioner_r.Workflow.Job.Stages.{start_stage, complete_stage, fail_stage}
use video_captioner_r.Workflow.Job.Lifecycle.{reset_from, start, prepare_retry}
use video_captioner_r.Workflow.Job.Machine.{
  Command, start_command, start_stage_command, complete_stage_command, finish_command,
  fail_stage_command, accepted, refused, step, run,
}
use video_captioner_r.Workflow.Job.Gate.{satisfied}
use video_captioner_r.Workflow.Job.Invariant.{IsValid, job_new-IsValid}
use video_captioner_r.Workflow.Job.Preserves.{job_run-IsValid}
use video_captioner_r.Workflow.Job.Order.{entered_needs_earlier}
use video_captioner_r.Workflow.Job.Errors.{Orderly, step-Orderly}
use video_captioner_r.Workflow.Job.Ending.{Verdict, finish-Verdict, unfinished}
use video_captioner_r.Workflow.Job.Advance.{Outcome, skips, completes}
use video_captioner_r.Workflow.Job.Progress.{pipeline, outcomes, degrades, pipeline_finishes}
use video_captioner_r.Workflow.Job.Retry.{StartsAt, retried, prepare_retry-StartsAt}
use video_captioner_r.Prelude.{
  if◌then◌else◌, any, ap, arith, get_elem?, subst, true, ℕ, ◌≢◌, ◌⊎◌, List, Option, [], drop, false,
  map, none, some, ◌∷◌, ◌≡◌, refl,
}

abbrev fresh : Job
fresh = record {
  id = "j";
  batch_id = none;
  execution_snapshot_id = none;
  profile_revision = "r1";
  source_path = "in.mp4";
  stages = map fresh_stage kinds;
  status = JobStatus.pending;
  cancel_requested = false;
  retry_attempt = 0;
  retry_generation = 0;
}

abbrev probed : ArtifactRef
probed = record {
  id = "a";
  stage = probe;
  path = "probe.json";
  content_hash = "h";
  schema_version = 1;
  producer_fingerprint = "ffprobe";
}

abbrev history : List Command
history =
    start_command
    ∷ start_stage_command probe
    ∷ complete_stage_command probe probed false
    ∷ start_stage_command extract_audio
    ∷ []

abbrev stage_at : StageKind → StageStatus → Option ArtifactRef → StageState
stage_at kind status artifact = record { kind = kind; status = status; artifact = artifact }

-- The job at the end of the history.
abbrev at_work : Job
at_work = record fresh {
  stages =
      stage_at probe StageStatus.done (some probed)
      ∷ stage_at extract_audio StageStatus.running none
      ∷ map fresh_stage (drop 2 kinds);
  status = JobStatus.running;
}

at_work_reached : run (new "j" none "r1" "in.mp4") history ≡ at_work
unfolding run step new start_stage complete_stage start
at_work_reached = refl

at_work-IsValid : IsValid at_work
at_work-IsValid =
    subst IsValid at_work_reached (
      job_run-IsValid (new "j" none "r1" "in.mp4") history (job_new-IsValid "j" none "r1" "in.mp4"))

job_run-IsValid_example : IsValid (run at_work (fail_stage_command extract_audio ∷ []))
job_run-IsValid_example =
    job_run-IsValid at_work (fail_stage_command extract_audio ∷ []) at_work-IsValid

entered_needs_earlier_example : satisfied (stage_at probe StageStatus.done (some probed)) ≡ true
entered_needs_earlier_example =
    entered_needs_earlier "j" none "r1" "in.mp4" history 0 1
      (stage_at probe StageStatus.done (some probed))
      (stage_at extract_audio StageStatus.running none)
      (ap (λ (j : Job). get_elem? j.stages 0) at_work_reached)
      (ap (λ (j : Job). get_elem? j.stages 1) at_work_reached) (omega arith) refl

step-Orderly_example : Orderly at_work (step at_work finish_command)
step-Orderly_example = step-Orderly at_work finish_command

finish-Verdict_example :
    (((step at_work finish_command).1 ≡ accepted)
      × (at_work.status ≡ JobStatus.running)
      × (any unfinished at_work.stages ≡ false)
      × Verdict at_work.stages (step at_work finish_command).0.status)
    ⊎ (((step at_work finish_command).1 ≡ refused)
        × ((at_work.status ≢ JobStatus.running) ⊎ (any unfinished at_work.stages ≡ true)))
finish-Verdict_example = finish-Verdict at_work

-- The stage at work failed, and the job with it.
abbrev failed_job : Job
failed_job = record at_work {
  stages =
      stage_at probe StageStatus.done (some probed)
      ∷ stage_at extract_audio StageStatus.failed none
      ∷ map fresh_stage (drop 2 kinds);
  status = JobStatus.failed;
}

failed_job_reached : run at_work (fail_stage_command extract_audio ∷ []) ≡ failed_job
unfolding run step fail_stage
failed_job_reached = refl

failed_job-IsValid : IsValid failed_job
failed_job-IsValid =
    subst IsValid failed_job_reached
      (job_run-IsValid at_work (fail_stage_command extract_audio ∷ []) at_work-IsValid)

prepare_retry-StartsAt_example :
    (i : ℕ) × (s : StageState) × (get_elem? failed_job.stages i ≡ some s)
    × (s.kind ≡ extract_audio)
    × StartsAt failed_job.stages none i s
    × (retried failed_job 1 ≡ retried failed_job i)
prepare_retry-StartsAt_example =
    prepare_retry-StartsAt failed_job none (retried failed_job 1) extract_audio failed_job-IsValid
      (unfold prepare_retry reset_from in refl)

-- Translation degrades, correction is left out.
abbrev mixed : StageKind → Outcome
mixed translate = completes probed true
mixed correct = skips
mixed kind = completes probed false

pipeline_finishes_example :
    let j = run (new "j" none "r1" "in.mp4") (start_command ∷ pipeline mixed kinds) in
    ((step j finish_command).1 ≡ accepted)
    × ((step j finish_command).0.stages ≡ outcomes mixed kinds)
    × ((step j finish_command).0.status
        ≡ (if any (λ k. degrades (mixed k)) kinds then JobStatus.done_degraded else JobStatus.done))
pipeline_finishes_example = pipeline_finishes "j" none "r1" "in.mp4" mixed
