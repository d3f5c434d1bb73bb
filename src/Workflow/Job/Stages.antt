-- ===== src/Workflow/Job/Stages.antt =====
-- crates/domain/src/workflow/job.rs: the operations on one stage of a job.
use video_captioner_r.Workflow.Stage.{
  JobStatus, StageKind, kind_eq, debug_kind, ArtifactRef, StageStatus, debug_status, is_terminal,
  prerequisite_satisfied, StageState,
}
use video_captioner_r.Workflow.Job.{
  Job, job_is_running, is_pending, is_running, is_active, illegal_job, illegal_stage, missing_stage,
  stage_index, with_stage, stage_mut,
}
use video_captioner_r.Prelude.{
  Bool, List, Result, String, err, false, get_elem?, if◌then◌else◌, invalid_argument, none, not, ok,
  panic, some, suc, true, zero, ℕ, ◌+s◌,
}

unfoldable pub record_revision :
    StageKind → ArtifactRef → StageState → StageState × Result (Unit {0})
record_revision kind artifact stage =
    if not (is_terminal stage.status)
    then illegal_stage stage "record_transcript_revision"
    else (record stage { artifact = some artifact }, ok tt)

unfoldable pub record_transcript_revision : Job → StageKind → ArtifactRef → Job × Result (Unit {0})
unfolding stage_mut record_revision
record_transcript_revision j kind artifact =
    if not (kind_eq artifact.stage kind)
    then (j, err (invalid_argument "transcript revision artifact stage does not match"))
    else stage_mut j kind (record_revision kind artifact)

-- `index > 0 && !self.stages[index - 1].status.prerequisite_satisfied()`.
unfoldable pub prerequisite_missing : List StageState → ℕ → Result Bool
prerequisite_missing stages zero = ok false
prerequisite_missing stages (suc i) = elim (get_elem? stages i) [
  | none ↦ panic
  | some before ↦ ok (not (prerequisite_satisfied before.status))
]

-- What `start_stage` and `skip_stage` share: the guards, and the new status of a pending stage.
unfoldable pub enter_pending : StageStatus → StageState → StageState × Result (Unit {0})
enter_pending to stage =
    if not (is_pending stage.status)
    then illegal_stage stage (debug_status to)
    else (record stage { status = to }, ok tt)

unfoldable pub enter_stage : Job → StageKind → String → StageStatus → Job × Result (Unit {0})
unfolding stage_index with_stage prerequisite_missing enter_pending
enter_stage j kind verb to =
    if not (job_is_running j.status)
    then illegal_job j (verb +s debug_kind kind)
    else elim (stage_index j.stages kind) [
      | none ↦ (j, err (missing_stage kind))
      | some index ↦ elim (prerequisite_missing j.stages index) [
        | ok true ↦ (
          j,
          err (invalid_argument ("stage " +s (debug_kind kind +s " prerequisite is not complete"))),
        )
        | ok false ↦ with_stage j index (enter_pending to)
        | err e ↦ (j, err e)
        | panic ↦ (j, panic)
      ]
    ]

unfoldable pub start_stage : Job → StageKind → Job × Result (Unit {0})
unfolding enter_stage
start_stage j kind = enter_stage j kind "start_" StageStatus.running

unfoldable pub skip_stage : Job → StageKind → Job × Result (Unit {0})
unfolding enter_stage
skip_stage j kind = enter_stage j kind "skip_" StageStatus.skipped

unfoldable pub complete_running :
    StageKind → ArtifactRef → Bool → StageState → StageState × Result (Unit {0})
complete_running kind artifact degraded stage =
    if not (is_running stage.status)
    then illegal_stage stage "Done"
    else if not (kind_eq artifact.stage kind)
    then (stage, err (invalid_argument "artifact stage does not match the completed stage"))
    else (
      record stage {
        status = if degraded then StageStatus.done_degraded else StageStatus.done;
        artifact = some artifact;
      },
      ok tt,
    )

unfoldable pub complete_stage : Job → StageKind → ArtifactRef → Bool → Job × Result (Unit {0})
unfolding stage_mut complete_running
complete_stage j kind artifact degraded = stage_mut j kind (complete_running kind artifact degraded)

unfoldable pub fail_active : StageState → StageState × Result (Unit {0})
fail_active stage =
    if not (is_active stage.status)
    then illegal_stage stage "Failed"
    else (record stage { status = StageStatus.failed }, ok tt)

-- `self.status = JobStatus::Failed`, reached when nothing before it returned.
abbrev pub then_job_failed : Job × Result (Unit {0}) → Job × Result (Unit {0})
then_job_failed (j, ok _) = (record j { status = JobStatus.failed }, ok tt)
then_job_failed (j, err e) = (j, err e)
then_job_failed (j, panic) = (j, panic)

unfoldable pub fail_stage : Job → StageKind → Job × Result (Unit {0})
unfolding stage_mut fail_active
fail_stage j kind = then_job_failed (stage_mut j kind fail_active)
