-- ===== src/Workflow/Job/Settled.antt =====
-- A job of crates/domain/src/workflow/job.rs that is not running has no stage at work.
use video_captioner_r.Workflow.Stage.{kind_eq, ArtifactRef, StageKind, StageStatus, StageState}
use video_captioner_r.Workflow.Job.Gate.{satisfied}
use video_captioner_r.Workflow.Job.{
  stage_mut, with_stage, stage_index, job_is_retryable, Job, stage_mut,
}
use video_captioner_r.Workflow.Job.Stages.{
  start_stage, skip_stage, record_transcript_revision, record_revision, enter_stage, complete_stage,
  complete_running, fail_stage,
}
use video_captioner_r.Workflow.Job.Lifecycle.{
  start, retry_index, restart_stage, request_cancel, recover_after_restart, prepare_retry,
  invalidate_stage_for_recovery, finish, fail, cancel, end_stage,
}
use video_captioner_r.Workflow.Job.Machine.{
  start_stage_command, start_command, skip_stage_command, retry_command, request_cancel_command,
  recover_command, record_command, invalidate_command, finish_command, fail_stage_command,
  fail_command, complete_stage_command, cancel_command, answer_job, stage_mut_cases,
  enter_stage_cases, Command, step,
}
use video_captioner_r.Workflow.Job.Invariant.{IsValid}
use video_captioner_r.Workflow.Job.Quiet.{
  quiet_of_terminal, quiet-set, quiet-reset_from, quiet-reset_committed, quiet-map, any-set_keep,
  IsSettled, active,
}
use video_captioner_r.Prelude.{
  Option, Option-cases, err, get_elem?, ok, panic, position-get_elem?, refl, set-get_elem?, some,
  true, Bool, Bool-cases, Result, String, any, arith, false, inl, inr, ℕ, ◌≡◌,
}

stage_mut-IsSettled :
    (j : Job) (kind : StageKind) (f : StageState → StageState × Result (Unit {0}))
    → ((s : StageState) → active s ≡ false → active (f s).0 ≡ false)
    → IsSettled j
    → IsSettled (stage_mut j kind f).0
stage_mut-IsSettled j kind f k h =
    stage_mut_cases (λ r. IsSettled r.0) j kind f (λ _. h)
      λ i s e _. ground (arith, any-set_keep j.stages i s (f s).0 e (k s))

record-IsSettled :
    (j : Job) (kind : StageKind) (a : ArtifactRef)
    → IsSettled j
    → IsSettled (record_transcript_revision j kind a).0
unfolding record_transcript_revision
record-IsSettled j kind a h = elim (Bool-cases (kind_eq a.stage kind)) [
  | inr no_match ↦ rw no_match h
  | inl e ↦ rw e (
      stage_mut-IsSettled j kind (record_revision kind a)
        (unfold record_revision in λ s q. ground arith) h)
]

complete-IsSettled :
    (j : Job) (kind : StageKind) (a : ArtifactRef) (degraded : Bool)
    → IsSettled j
    → IsSettled (complete_stage j kind a degraded).0
unfolding complete_stage
complete-IsSettled j kind a degraded h =
    stage_mut-IsSettled j kind (complete_running kind a degraded)
      (unfold complete_running in λ s q. ground arith) h

-- The stage that fails was the one at work.
fail_stage-IsSettled :
    (j : Job) (kind : StageKind) → IsValid j → IsSettled j → IsSettled (fail_stage j kind).0
unfolding fail_stage
fail_stage-IsSettled j kind v h = elim (Option-cases (stage_index j.stages kind)) [
  | inl e ↦ rw (e, fail_stage, stage_mut) h
  | inr (i, e) ↦
      let (s, es, _) = position-get_elem? (λ s. kind_eq s.kind kind) j.stages i e in
      rw (e, fail_stage, stage_mut)
        (rw (es, fail_stage, with_stage)
          (ground (
            arith,
            set-get_elem? j.stages i s es,
            quiet-set true j.stages i s (record s { status = StageStatus.failed }) v.in_order es,
          )))
]

enter-IsSettled :
    (j : Job) (kind : StageKind) (verb : String) (to : StageStatus)
    → IsSettled j
    → IsSettled (enter_stage j kind verb to).0
enter-IsSettled j kind verb to h =
    enter_stage_cases (λ r. IsSettled r.0) j kind verb to (λ _. h) λ i s r e m. inr (ground arith)

-- A command that throws a stage's artifact away does so with a stage that was committed.
abbrev Committed : Job → Command → Type 0
Committed j (invalidate_command kind) =
    (i : ℕ) × (s : StageState) × (stage_index j.stages kind ≡ some i)
    × (get_elem? j.stages i ≡ some s)
    × (satisfied s ≡ true)
Committed j _ = Unit {0}

invalidate-IsSettled :
    (j : Job) (kind : StageKind)
    → IsValid j
    → Committed j (invalidate_command kind)
    → IsSettled (invalidate_stage_for_recovery j kind).0
unfolding invalidate_stage_for_recovery
invalidate-IsSettled j kind v (i, s, e, es, k) =
    rw (e, invalidate_stage_for_recovery)
      (inl (quiet-reset_committed true j.stages i s v.in_order es k))

-- Only a job that is not running can be retried.
quiet_of_retryable :
    (j : Job) → job_is_retryable j.status ≡ true → IsSettled j → any active j.stages ≡ false
quiet_of_retryable j r (inl q) = q
quiet_of_retryable j r (inr e) = ground arith

retry_at-IsSettled :
    (j : Job) (from_stage : Option StageKind) (r : Result ℕ)
    → retry_index j.stages from_stage ≡ r
    → job_is_retryable j.status ≡ true
    → IsSettled j
    → IsSettled (prepare_retry j from_stage).0
unfolding prepare_retry
retry_at-IsSettled j from_stage (err x) e r h = rw r (rw (e, prepare_retry) h)
retry_at-IsSettled j from_stage panic e r h = rw r (rw (e, prepare_retry) h)
retry_at-IsSettled j from_stage (ok i) e r h = elim (Option-cases (get_elem? j.stages i)) [
  | inl g ↦ rw r (rw (e, prepare_retry) (rw (g, prepare_retry) h))
  | inr (s, g) ↦ rw r (
      rw (e, prepare_retry)
        (rw (g, prepare_retry) (inl (quiet-reset_from i j.stages (quiet_of_retryable j r h)))))
]

retry-IsSettled :
    (j : Job) (from_stage : Option StageKind)
    → IsSettled j
    → IsSettled (prepare_retry j from_stage).0
unfolding prepare_retry
retry-IsSettled j from_stage h = elim (Bool-cases (job_is_retryable j.status)) [
  | inr no_retry ↦ rw no_retry h
  | inl r ↦ unfold prepare_retry in retry_at-IsSettled j from_stage _ refl r h
]

whole-IsSettled :
    (j : Job)
    → IsSettled j
    → IsSettled (start j).0
      × IsSettled (finish j).0
      × IsSettled (recover_after_restart j).0
      × IsSettled (cancel j).0
      × IsSettled (request_cancel j).0
      × IsSettled (fail j).0
unfolding start finish recover_after_restart cancel request_cancel fail
whole-IsSettled j h = (
  ground arith,
  ground (arith, quiet_of_terminal j.stages),
  ground (arith, quiet-map restart_stage j.stages (λ s. ground arith)),
  ground (arith, quiet-map (end_stage StageStatus.cancelled) j.stages (λ s. ground arith)),
  ground arith,
  ground (arith, quiet-map (end_stage StageStatus.failed) j.stages (λ s. ground arith)),
)

-- No command leaves a stage at work in a valid job that is not running, if none was there
-- before and an invalidated stage was committed.
pub step-IsSettled :
    (j : Job) (c : Command) → IsValid j → Committed j c → IsSettled j → IsSettled (step j c).0
unfolding step
step-IsSettled j (record_command kind a) v c h = rw answer_job (record-IsSettled j kind a h)
step-IsSettled j start_command v c h = rw answer_job (whole-IsSettled j h).0
step-IsSettled j finish_command v c h = rw answer_job (whole-IsSettled j h).1
step-IsSettled j recover_command v c h = rw answer_job (whole-IsSettled j h).2
step-IsSettled j cancel_command v c h = rw answer_job (whole-IsSettled j h).3
step-IsSettled j request_cancel_command v c h = rw answer_job (whole-IsSettled j h).4
step-IsSettled j fail_command v c h = rw answer_job (whole-IsSettled j h).5
step-IsSettled j (start_stage_command kind) v c h =
    rw answer_job (unfold start_stage in enter-IsSettled j kind "start_" StageStatus.running h)
step-IsSettled j (skip_stage_command kind) v c h =
    rw answer_job (unfold skip_stage in enter-IsSettled j kind "skip_" StageStatus.skipped h)
step-IsSettled j (fail_stage_command kind) v c h = rw answer_job (fail_stage-IsSettled j kind v h)
step-IsSettled j (invalidate_command kind) v c h = rw answer_job (invalidate-IsSettled j kind v c)
step-IsSettled j (complete_stage_command kind a degraded) v c h =
    rw answer_job (complete-IsSettled j kind a degraded h)
step-IsSettled j (retry_command from_stage) v c h = rw answer_job (retry-IsSettled j from_stage h)
