-- ===== src/Workflow/Job/Lifecycle.antt =====
-- crates/domain/src/workflow/job.rs: the operations on a job as a whole.
use video_captioner_r.Workflow.Stage.{
  JobStatus, job_is_terminal, StageKind, StageStatus, is_terminal, StageState,
}
use video_captioner_r.Workflow.Job.{
  Job, job_is_pending, job_is_running, job_is_cancelled, job_is_retryable, is_active, is_retryable,
  illegal_job, missing_stage, stage_index,
}
use video_captioner_r.Prelude.{
  Bool, List, Option, Result, [], already_terminal, any, err, false, get_elem?, if◌then◌else◌,
  invalid_argument, map, none, not, ok, panic, position, sat_add_u32, some, suc, true, zero, ℕ, ◌∷◌,
}

unfoldable pub start : Job → Job × Result (Unit {0})
start j =
    if not (job_is_pending j.status)
    then illegal_job j "Running"
    else if j.cancel_requested
    then (j, err (invalid_argument "Job has a pending cancellation request"))
    else (record j { status = JobStatus.running }, ok tt)

abbrev pub is_failed : StageState → Bool
is_failed s = elim s.status [ StageStatus.failed ↦ true | _ ↦ false ]

abbrev pub is_degraded : StageState → Bool
is_degraded s = elim s.status [ StageStatus.done_degraded ↦ true | _ ↦ false ]

abbrev pub is_cancelled : StageState → Bool
is_cancelled s = elim s.status [ StageStatus.cancelled ↦ true | _ ↦ false ]

unfoldable pub terminal_status : List StageState → JobStatus
terminal_status stages =
    if any is_failed stages
    then JobStatus.failed
    else if any is_degraded stages
    then JobStatus.done_degraded
    else if any is_cancelled stages
    then JobStatus.cancelled
    else JobStatus.done

unfoldable pub finish : Job → Job × Result (Unit {0})
unfolding terminal_status
finish j =
    if not (job_is_running j.status)
    then illegal_job j "terminal"
    else if any (λ s. not (is_terminal s.status)) j.stages
    then (j, err (invalid_argument "all job stages must be terminal before the job finishes"))
    else (record j { status = terminal_status j.stages }, ok tt)

abbrev pub restart_stage : StageState → StageState
restart_stage s = if is_active s.status then record s { status = StageStatus.pending } else s

unfoldable pub recover_after_restart : Job → Job × Result (Unit {0})
recover_after_restart j =
    if not (job_is_running j.status)
    then (j, ok tt)
    else (record j { stages = map restart_stage j.stages; status = JobStatus.pending }, ok tt)

abbrev reset_stage : StageState → StageState
reset_stage s = record s { status = StageStatus.pending; artifact = none }

-- `for stage in self.stages.iter_mut().skip(index)`: reset the stage.
unfoldable pub reset_from : ℕ → List StageState → List StageState
reset_from i [] = []
reset_from zero (s ∷ ss) = reset_stage s ∷ reset_from zero ss
reset_from (suc i) (s ∷ ss) = s ∷ reset_from i ss

unfoldable pub invalidate_stage_for_recovery : Job → StageKind → Job × Result (Unit {0})
unfolding stage_index
invalidate_stage_for_recovery j kind = elim (stage_index j.stages kind) [
  | none ↦ (j, err (missing_stage kind))
  | some index ↦
      (record j { stages = reset_from index j.stages; status = JobStatus.pending }, ok tt)
]

-- A stage that has not ended gets the given status.
abbrev pub end_stage : StageStatus → StageState → StageState
end_stage to s = if is_terminal s.status then s else record s { status = to }

unfoldable pub cancel : Job → Job × Result (Unit {0})
cancel j =
    if job_is_cancelled j.status
    then (j, ok tt)
    else if job_is_terminal j.status
    then (j, err (already_terminal "Job"))
    else (
      record j {
        cancel_requested = true;
        status = JobStatus.cancelled;
        stages = map (end_stage StageStatus.cancelled) j.stages;
      },
      ok tt,
    )

unfoldable pub request_cancel : Job → Job × Result (Unit {0})
request_cancel j =
    if job_is_terminal j.status then (j, ok tt) else (record j { cancel_requested = true }, ok tt)

unfoldable pub fail : Job → Job × Result (Unit {0})
fail j = if job_is_terminal j.status then (j, ok tt) else (
  record j { status = JobStatus.failed; stages = map (end_stage StageStatus.failed) j.stages },
  ok tt,
)

-- The `match from_stage` of `prepare_retry`.
unfoldable pub retry_index : List StageState → Option StageKind → Result ℕ
unfolding stage_index
retry_index stages (some kind) = elim (stage_index stages kind) [
  | none ↦ err (missing_stage kind)
  | some index ↦ ok index
]
retry_index stages none = elim (position (λ s. is_retryable s.status) stages) [
  | none ↦
      err (invalid_argument "prepare_retry requires from_stage when no failed stage is present")
  | some index ↦ ok index
]

unfoldable pub prepare_retry : Job → Option StageKind → Job × Result StageKind
unfolding retry_index
prepare_retry j from_stage =
    if not (job_is_retryable j.status)
    then illegal_job j "retry"
    else elim (retry_index j.stages from_stage) [
      | err e ↦ (j, err e)
      | panic ↦ (j, panic)
      | ok index ↦ elim (get_elem? j.stages index) [
        | none ↦ (j, panic)
        | some stage ↦ (
          record j {
            stages = reset_from index j.stages;
            retry_attempt = sat_add_u32 j.retry_attempt 1;
            retry_generation = sat_add_u32 j.retry_generation 1;
            status = JobStatus.pending;
            cancel_requested = false;
          },
          ok stage.kind,
        )
      ]
    ]
