-- ===== src/Workflow/Job/Errors.antt =====
-- The error paths of crates/domain/src/workflow/job.rs.
use video_captioner_r.Workflow.Stage.{kind_eq, ArtifactRef, StageKind, StageStatus, StageState}
use video_captioner_r.Workflow.Job.{is_retryable, job_is_retryable, stage_index, Job, stage_mut}
use video_captioner_r.Workflow.Job.Stages.{
  start_stage, skip_stage, complete_stage, then_job_failed, record_transcript_revision,
  record_revision, fail_active, enter_stage, enter_pending, complete_running, fail_stage,
}
use video_captioner_r.Workflow.Job.Lifecycle.{
  prepare_retry, start, retry_index, request_cancel, recover_after_restart,
  invalidate_stage_for_recovery, finish, fail, cancel,
}
use video_captioner_r.Workflow.Job.Machine.{
  start_stage_command, start_command, skip_stage_command, retry_command, request_cancel_command,
  recover_command, record_command, invalidate_command, finish_command, fail_stage_command,
  fail_command, complete_stage_command, cancel_command, stage_mut_cases, refused, put_stage,
  enter_stage_cases, crashed, answer, accepted, Answer, Command, step,
}
-- An error comes with the job as it was, and there is no panic.
use video_captioner_r.Prelude.{
  position-get_elem?, true, Bool, Bool-cases, List, Option, Option-cases, Result, String, ap, arith,
  err, get_elem?, inl, inr, none, ok, panic, refl, set, set-get_elem?, some, ℕ, ◌∙◌, ◌≡◌,
}

abbrev Tidy {ℓ} : {A : Type ℓ} → Job → Job × Result A → Type 0
Tidy j (j', ok _) = Unit {0}
Tidy j (j', err _) = j' ≡ j
Tidy j (j', panic) = ⊥

abbrev StageTidy : StageState → StageState × Result (Unit {0}) → Type 0
StageTidy s (s', ok _) = Unit {0}
StageTidy s (s', err _) = s' ≡ s
StageTidy s (s', panic) = ⊥

abbrev pub Orderly : Job → Job × Answer → Type 0
Orderly j (j', accepted) = Unit {0}
Orderly j (j', refused) = j' ≡ j
Orderly j (j', crashed) = ⊥

answer-Orderly {ℓ} : {A : Type ℓ} (j : Job) (r : Job × Result A) → Tidy j r → Orderly j (answer r)
answer-Orderly j (j', ok _) t = tt
answer-Orderly j (j', err _) t = t
answer-Orderly j (j', panic) t = t

pub put_stage_self :
    (j : Job) (i : ℕ) (s s' : StageState)
    → get_elem? j.stages i ≡ some s
    → s' ≡ s
    → put_stage j i s' ≡ j
put_stage_self j i s s' e h =
    ap (λ ss. record j { stages = ss }) (ap (set j.stages i) h ∙ set-get_elem? j.stages i s e)

put-Tidy :
    (j : Job) (i : ℕ) (s : StageState) (r : StageState × Result (Unit {0}))
    → get_elem? j.stages i ≡ some s
    → StageTidy s r
    → Tidy j (put_stage j i r.0, r.1)
put-Tidy j i s (s', ok _) e t = tt
put-Tidy j i s (s', err _) e t = put_stage_self j i s s' e t
put-Tidy j i s (s', panic) e t = t

stage_mut-Tidy :
    (j : Job) (kind : StageKind) (f : StageState → StageState × Result (Unit {0}))
    → ((s : StageState) → StageTidy s (f s))
    → Tidy j (stage_mut j kind f)
stage_mut-Tidy j kind f t =
    stage_mut_cases (Tidy j) j kind f (λ e. refl) λ i s e _. put-Tidy j i s (f s) e (t s)

enter_pending-StageTidy : (to : StageStatus) (s : StageState) → StageTidy s (enter_pending to s)
unfolding enter_pending
enter_pending-StageTidy to s = ground arith

enter_stage-Tidy :
    (j : Job) (kind : StageKind) (verb : String) (to : StageStatus)
    → Tidy j (enter_stage j kind verb to)
enter_stage-Tidy j kind verb to =
    enter_stage_cases (Tidy j) j kind verb to (λ e. refl)
      λ i s _ e m. put-Tidy j i s (enter_pending to s) e (enter_pending-StageTidy to s)

record_revision-StageTidy :
    (kind : StageKind) (a : ArtifactRef) (s : StageState) → StageTidy s (record_revision kind a s)
unfolding record_revision
record_revision-StageTidy kind a s = ground arith

complete_running-StageTidy :
    (kind : StageKind) (a : ArtifactRef) (degraded : Bool) (s : StageState)
    → StageTidy s (complete_running kind a degraded s)
unfolding complete_running
complete_running-StageTidy kind a degraded s = ground arith

fail_active-StageTidy : (s : StageState) → StageTidy s (fail_active s)
unfolding fail_active
fail_active-StageTidy s = ground arith

then_job_failed-Tidy :
    (j : Job) (r : Job × Result (Unit {0})) → Tidy j r → Tidy j (then_job_failed r)
then_job_failed-Tidy j (j', ok _) t = tt
then_job_failed-Tidy j (j', err _) t = t
then_job_failed-Tidy j (j', panic) t = t

record-Tidy :
    (j : Job) (kind : StageKind) (a : ArtifactRef) → Tidy j (record_transcript_revision j kind a)
unfolding record_transcript_revision
record-Tidy j kind a = elim (Bool-cases (kind_eq a.stage kind)) [
  | inr no_match ↦ rw no_match refl
  | inl e ↦ rw e (stage_mut-Tidy j kind (record_revision kind a) (record_revision-StageTidy kind a))
]

whole-Tidy :
    (j : Job)
    → Tidy j (start j)
      × Tidy j (finish j)
      × Tidy j (recover_after_restart j)
      × Tidy j (cancel j)
      × Tidy j (request_cancel j)
      × Tidy j (fail j)
unfolding start finish recover_after_restart cancel request_cancel fail
whole-Tidy j = (ground arith, ground arith, ground arith, ground arith, ground arith, ground arith)

invalidate-Tidy : (j : Job) (kind : StageKind) → Tidy j (invalidate_stage_for_recovery j kind)
unfolding invalidate_stage_for_recovery
invalidate-Tidy j kind = elim (Option-cases (stage_index j.stages kind)) [
  | inl e ↦ rw (e, invalidate_stage_for_recovery) refl
  | inr (i, e) ↦ rw (e, invalidate_stage_for_recovery) tt
]

-- The stage that a retry starts from is there.
retry_index_found :
    (ss : List StageState) (from_stage : Option StageKind) (i : ℕ)
    → retry_index ss from_stage ≡ ok i
    → (s : StageState) × (get_elem? ss i ≡ some s)
unfolding retry_index
retry_index_found ss (some kind) i e =
    let (s, es, _) = position-get_elem? (λ s. kind_eq s.kind kind) ss i (ground arith) in (s, es)
retry_index_found ss none i e =
    let (s, es, _) = position-get_elem? (λ s. is_retryable s.status) ss i (ground arith) in (s, es)

retry_at-Tidy :
    (j : Job) (from_stage : Option StageKind) (r : Result ℕ)
    → retry_index j.stages from_stage ≡ r
    → job_is_retryable j.status ≡ true
    → Tidy j (prepare_retry j from_stage)
unfolding prepare_retry
retry_at-Tidy j from_stage (err x) e r = rw r (rw (e, prepare_retry) refl)
retry_at-Tidy j (some kind) panic e r = ground arith
retry_at-Tidy j none panic e r = ground arith
retry_at-Tidy j from_stage (ok i) e r =
    let (s, g) = retry_index_found j.stages from_stage i e in
    rw r (rw (e, prepare_retry) (rw (g, prepare_retry) tt))

retry-Tidy : (j : Job) (from_stage : Option StageKind) → Tidy j (prepare_retry j from_stage)
unfolding prepare_retry
retry-Tidy j from_stage = elim (Bool-cases (job_is_retryable j.status)) [
  | inr no_retry ↦ rw no_retry refl
  | inl r ↦ retry_at-Tidy j from_stage (retry_index j.stages from_stage) refl r
]

-- Every command that is refused leaves every field of the job as it was, and no command panics.
pub step-Orderly : (j : Job) (c : Command) → Orderly j (step j c)
unfolding step
step-Orderly j (record_command kind a) = answer-Orderly j _ (record-Tidy j kind a)
step-Orderly j start_command = answer-Orderly j _ (whole-Tidy j).0
step-Orderly j finish_command = answer-Orderly j _ (whole-Tidy j).1
step-Orderly j recover_command = answer-Orderly j _ (whole-Tidy j).2
step-Orderly j cancel_command = answer-Orderly j _ (whole-Tidy j).3
step-Orderly j request_cancel_command = answer-Orderly j _ (whole-Tidy j).4
step-Orderly j fail_command = answer-Orderly j _ (whole-Tidy j).5
step-Orderly j (start_stage_command kind) =
    answer-Orderly j (start_stage j kind)
      (unfold start_stage in enter_stage-Tidy j kind "start_" StageStatus.running)
step-Orderly j (skip_stage_command kind) =
    answer-Orderly j (skip_stage j kind)
      (unfold skip_stage in enter_stage-Tidy j kind "skip_" StageStatus.skipped)
step-Orderly j (fail_stage_command kind) = answer-Orderly j (fail_stage j kind) (
    unfold fail_stage in
    then_job_failed-Tidy j (stage_mut j kind fail_active)
      (stage_mut-Tidy j kind fail_active fail_active-StageTidy))
step-Orderly j (invalidate_command kind) = answer-Orderly j _ (invalidate-Tidy j kind)
step-Orderly j (complete_stage_command kind a degraded) =
    answer-Orderly j (complete_stage j kind a degraded) (
      unfold complete_stage in
      stage_mut-Tidy j kind (complete_running kind a degraded)
        (complete_running-StageTidy kind a degraded))
step-Orderly j (retry_command from_stage) = answer-Orderly j _ (retry-Tidy j from_stage)
