-- ===== src/Workflow/Job/Preserves.antt =====
-- Every method of crates/domain/src/workflow/job.rs keeps the invariant of the stages.
use video_captioner_r.Workflow.Stage.{
  kind_eq, StageStatus, StageState, JobStatus, ArtifactRef, StageKind,
}
use video_captioner_r.Workflow.Job.{stage_index, job_is_retryable, Job, stage_mut}
use video_captioner_r.Workflow.Job.Stages.{
  start_stage, skip_stage, fail_stage, fail_active, complete_stage, complete_running,
  then_job_failed, record_transcript_revision, record_revision,
}
use video_captioner_r.Workflow.Job.Lifecycle.{
  retry_index, recover_after_restart, prepare_retry, invalidate_stage_for_recovery, fail, start,
  restart_stage, request_cancel, finish, cancel, reset_from, end_stage,
}
use video_captioner_r.Workflow.Job.Machine.{
  start_stage_command, start_command, skip_stage_command, run, retry_command,
  request_cancel_command, recover_command, record_command, invalidate_command, finish_command,
  fail_stage_command, fail_command, complete_stage_command, cancel_command, answer_job, Command,
  step,
}
use video_captioner_r.Workflow.Job.Gate.{waits, satisfied, gated-reset_from, gated-map}
use video_captioner_r.Workflow.Job.Invariant.{
  start-Keeps, skip-Keeps, fail_active-Keeps, enter_stage-IsValid, complete_running-Keeps,
  stage_mut-IsValid, stage_fits, record_revision-Keeps, kind_of, IsValid,
}
-- A change of every stage that keeps each one's kind, order and artifact keeps the invariant.
use video_captioner_r.Prelude.{
  Option, Option-cases, get_elem?, Bool, Bool-cases, List, Result, [], all, all-map, arith, err,
  inl, inr, map, ok, panic, refl, suc, true, zero, ℕ, ◌∙◌, ◌∷◌, ◌≡◌,
}

record KeepsAll (f : StageState → StageState) : Type 0 where
  kinds_kept : (s : StageState) → (f s).kind ≡ s.kind
  satisfied_same : (s : StageState) → satisfied (f s) ≡ satisfied s
  waits_kept : (s : StageState) → waits s.status ≡ true → waits (f s).status ≡ true
  fits_kept_all : (s : StageState) → stage_fits s ≡ true → stage_fits (f s) ≡ true

map-kind_of :
    (f : StageState → StageState) (ss : List StageState)
    → ((s : StageState) → (f s).kind ≡ s.kind)
    → map kind_of (map f ss) ≡ map kind_of ss
map-kind_of f [] k = refl
map-kind_of f (s ∷ ss) k = ground (arith, k s, map-kind_of f ss k)

map-IsValid :
    (f : StageState → StageState) (j : Job) (status : JobStatus) (c : Bool)
    → KeepsAll f
    → IsValid j
    → IsValid (record j { stages = map f j.stages; status = status; cancel_requested = c })
map-IsValid f j status c k v = record {
  pipeline = map-kind_of f j.stages k.kinds_kept ∙ v.pipeline;
  in_order = gated-map f true j.stages k.satisfied_same k.waits_kept v.in_order;
  artifacts = all-map stage_fits stage_fits f j.stages k.fits_kept_all v.artifacts;
}

restart-KeepsAll : KeepsAll restart_stage
restart-KeepsAll = record {
  kinds_kept = λ s. ground arith;
  satisfied_same = λ s. ground arith;
  waits_kept = λ s h. ground arith;
  fits_kept_all = λ s h. ground arith;
}

cancel-KeepsAll : KeepsAll (end_stage StageStatus.cancelled)
cancel-KeepsAll = record {
  kinds_kept = λ s. ground arith;
  satisfied_same = λ s. ground arith;
  waits_kept = λ s h. ground arith;
  fits_kept_all = λ s h. ground arith;
}

fail-KeepsAll : KeepsAll (end_stage StageStatus.failed)
fail-KeepsAll = record {
  kinds_kept = λ s. ground arith;
  satisfied_same = λ s. ground arith;
  waits_kept = λ s h. ground arith;
  fits_kept_all = λ s h. ground arith;
}

reset_from-kind_of : (i : ℕ) (ss : List StageState) → map kind_of (reset_from i ss) ≡ map kind_of ss
unfolding reset_from
reset_from-kind_of i [] = refl
reset_from-kind_of zero (s ∷ ss) = ground (arith, reset_from-kind_of zero ss)
reset_from-kind_of (suc i) (s ∷ ss) = ground (arith, reset_from-kind_of i ss)

reset_from-fits :
    (i : ℕ) (ss : List StageState)
    → all stage_fits ss ≡ true
    → all stage_fits (reset_from i ss) ≡ true
unfolding reset_from
reset_from-fits i [] h = refl
reset_from-fits zero (s ∷ ss) h = ground (arith, reset_from-fits zero ss)
reset_from-fits (suc i) (s ∷ ss) h = ground (arith, reset_from-fits i ss)

reset-IsValid : (j j' : Job) (i : ℕ) → j'.stages ≡ reset_from i j.stages → IsValid j → IsValid j'
reset-IsValid j j' i e v = record {
  pipeline = rw e (reset_from-kind_of i j.stages ∙ v.pipeline);
  in_order = rw e (gated-reset_from true i j.stages v.in_order);
  artifacts = rw e (reset_from-fits i j.stages v.artifacts);
}

same-IsValid : (j j' : Job) → j'.stages ≡ j.stages → IsValid j → IsValid j'
same-IsValid j j' e v = record {
  pipeline = rw e v.pipeline;
  in_order = rw e v.in_order;
  artifacts = rw e v.artifacts;
}

then_job_failed-IsValid :
    (r : Job × Result (Unit {0})) → IsValid r.0 → IsValid (then_job_failed r).0
then_job_failed-IsValid (j, ok _) v = same-IsValid j _ refl v
then_job_failed-IsValid (j, err _) v = v
then_job_failed-IsValid (j, panic) v = v

record-IsValid :
    (j : Job) (kind : StageKind) (a : ArtifactRef)
    → IsValid j
    → IsValid (record_transcript_revision j kind a).0
unfolding record_transcript_revision
record-IsValid j kind a v = elim (Bool-cases (kind_eq a.stage kind)) [
  | inr no_match ↦ rw no_match v
  | inl e ↦ rw e (
      stage_mut-IsValid j kind (record_revision kind a) (λ s m. record_revision-Keeps kind a s e m)
        v)
]

start-IsValid : (j : Job) → IsValid j → IsValid (start j).0
unfolding start
start-IsValid j v = ground arith

finish-IsValid : (j : Job) → IsValid j → IsValid (finish j).0
unfolding finish
finish-IsValid j v = ground arith

request_cancel-IsValid : (j : Job) → IsValid j → IsValid (request_cancel j).0
unfolding request_cancel
request_cancel-IsValid j v = ground arith

cancel-IsValid : (j : Job) → IsValid j → IsValid (cancel j).0
unfolding cancel
cancel-IsValid j v = ground (
  arith,
  map-IsValid (end_stage StageStatus.cancelled) j JobStatus.cancelled true cancel-KeepsAll v,
)

fail-IsValid : (j : Job) → IsValid j → IsValid (fail j).0
unfolding fail
fail-IsValid j v = ground (
  arith,
  map-IsValid (end_stage StageStatus.failed) j JobStatus.failed j.cancel_requested fail-KeepsAll v,
)

recover-IsValid : (j : Job) → IsValid j → IsValid (recover_after_restart j).0
unfolding recover_after_restart
recover-IsValid j v =
    ground
      (arith, map-IsValid restart_stage j JobStatus.pending j.cancel_requested restart-KeepsAll v)

invalidate-IsValid :
    (j : Job) (kind : StageKind) → IsValid j → IsValid (invalidate_stage_for_recovery j kind).0
unfolding invalidate_stage_for_recovery
invalidate-IsValid j kind v = elim (Option-cases (stage_index j.stages kind)) [
  | inl e ↦ rw (e, invalidate_stage_for_recovery) v
  | inr (i, e) ↦ rw (e, invalidate_stage_for_recovery) (reset-IsValid j _ i refl v)
]

retry_at-IsValid :
    (j : Job) (from_stage : Option StageKind) (r : Result ℕ)
    → retry_index j.stages from_stage ≡ r
    → IsValid j
    → IsValid (prepare_retry j from_stage).0
unfolding prepare_retry
retry_at-IsValid j from_stage (err x) e v = elim (Bool-cases (job_is_retryable j.status)) [
  | inr no_retry ↦ rw no_retry v
  | inl r ↦ rw r (rw (e, prepare_retry) v)
]
retry_at-IsValid j from_stage panic e v = elim (Bool-cases (job_is_retryable j.status)) [
  | inr no_retry ↦ rw no_retry v
  | inl r ↦ rw r (rw (e, prepare_retry) v)
]
retry_at-IsValid j from_stage (ok i) e v = elim (Bool-cases (job_is_retryable j.status)) [
  | inr no_retry ↦ rw no_retry v
  | inl r ↦ elim (Option-cases (get_elem? j.stages i)) [
    | inl g ↦ rw r (rw (e, prepare_retry) (rw (g, prepare_retry) v))
    | inr (s, g) ↦ rw r (rw (e, prepare_retry) (rw (g, prepare_retry) (reset-IsValid j _ i refl v)))
  ]
]

-- Every command keeps the pipeline's seven stages, their order and their artifacts, refused or not.
job_step-IsValid : (j : Job) (c : Command) → IsValid j → IsValid (step j c).0
unfolding step
job_step-IsValid j (record_command kind a) v = rw answer_job (record-IsValid j kind a v)
job_step-IsValid j start_command v = rw answer_job (start-IsValid j v)
job_step-IsValid j finish_command v = rw answer_job (finish-IsValid j v)
job_step-IsValid j recover_command v = rw answer_job (recover-IsValid j v)
job_step-IsValid j cancel_command v = rw answer_job (cancel-IsValid j v)
job_step-IsValid j request_cancel_command v = rw answer_job (request_cancel-IsValid j v)
job_step-IsValid j fail_command v = rw answer_job (fail-IsValid j v)
job_step-IsValid j (start_stage_command kind) v =
    rw answer_job
      (unfold start_stage in enter_stage-IsValid j kind "start_" StageStatus.running start-Keeps v)
job_step-IsValid j (skip_stage_command kind) v =
    rw answer_job
      (unfold skip_stage in enter_stage-IsValid j kind "skip_" StageStatus.skipped skip-Keeps v)
job_step-IsValid j (fail_stage_command kind) v = rw answer_job (
    unfold fail_stage in
    then_job_failed-IsValid (stage_mut j kind fail_active)
      (stage_mut-IsValid j kind fail_active (λ s _. fail_active-Keeps s) v))
job_step-IsValid j (invalidate_command kind) v = rw answer_job (invalidate-IsValid j kind v)
job_step-IsValid j (complete_stage_command kind a degraded) v = rw answer_job (
    unfold complete_stage in
    stage_mut-IsValid j kind (complete_running kind a degraded)
      (λ s m. complete_running-Keeps kind a degraded s m) v)
job_step-IsValid j (retry_command from_stage) v =
    rw answer_job (retry_at-IsValid j from_stage (retry_index j.stages from_stage) refl v)

-- Whatever commands follow, a valid job keeps the seven stages in their order, every stage
-- entered only behind a satisfied one, and each artifact of its stage.
pub job_run-IsValid : (j : Job) (cs : List Command) → IsValid j → IsValid (run j cs)
unfolding run
job_run-IsValid j [] v = v
job_run-IsValid j (c ∷ cs) v = job_run-IsValid (step j c).0 cs (job_step-IsValid j c v)
