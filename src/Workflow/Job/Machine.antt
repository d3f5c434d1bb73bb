-- ===== src/Workflow/Job/Machine.antt =====
-- The methods of crates/domain/src/workflow/job.rs as the commands of one machine, and the ways in
-- which a command can change the stages.
use video_captioner_r.Workflow.Stage.{
  StageStatus, prerequisite_satisfied, kind_eq, StageKind, ArtifactRef, StageState,
}
use video_captioner_r.Workflow.Job.{
  missing_stage, job_is_running, Job, stage_index, with_stage, stage_mut,
}
use video_captioner_r.Workflow.Job.Stages.{
  prerequisite_missing, enter_stage, enter_pending, record_transcript_revision, start_stage,
  skip_stage, complete_stage, fail_stage,
}
use video_captioner_r.Workflow.Job.Lifecycle.{
  start, finish, recover_after_restart, invalidate_stage_for_recovery, cancel, request_cancel, fail,
  prepare_retry,
}
use video_captioner_r.Prelude.{
  DomainError, Bool-cases, String, false, not, suc, true, zero, position-get_elem?, Bool, List,
  Option, Option-cases, Result, [], err, get_elem?, inl, inr, ok, panic, refl, set, some, ℕ, ◌∷◌,
  ◌≡◌,
}

pub data Command : Type 0 where
  record_command : StageKind → ArtifactRef → Command
  start_command finish_command recover_command cancel_command : Command
  request_cancel_command fail_command : Command
  start_stage_command skip_stage_command fail_stage_command : StageKind → Command
  invalidate_command : StageKind → Command
  complete_stage_command : StageKind → ArtifactRef → Bool → Command
  retry_command : Option StageKind → Command

pub data Answer : Type 0 where
  refused accepted crashed : Answer

abbrev pub answer {ℓ} : {A : Type ℓ} → Job × Result A → Job × Answer
answer (j, ok _) = (j, accepted)
answer (j, err _) = (j, refused)
answer (j, panic) = (j, crashed)

unfoldable pub step : Job → Command → Job × Answer
step j (record_command kind artifact) = answer (record_transcript_revision j kind artifact)
step j start_command = answer (start j)
step j finish_command = answer (finish j)
step j recover_command = answer (recover_after_restart j)
step j cancel_command = answer (cancel j)
step j request_cancel_command = answer (request_cancel j)
step j fail_command = answer (fail j)
step j (start_stage_command kind) = answer (start_stage j kind)
step j (skip_stage_command kind) = answer (skip_stage j kind)
step j (fail_stage_command kind) = answer (fail_stage j kind)
step j (invalidate_command kind) = answer (invalidate_stage_for_recovery j kind)
step j (complete_stage_command kind artifact degraded) =
    answer (complete_stage j kind artifact degraded)
step j (retry_command from_stage) = answer (prepare_retry j from_stage)

unfoldable pub run : Job → List Command → Job
run j [] = j
run j (c ∷ cs) = run (step j c).0 cs

pub answer_job {ℓ} : {A : Type ℓ} (r : Job × Result A) → (answer r).0 ≡ r.0
answer_job (j, ok _) = refl
answer_job (j, err _) = refl
answer_job (j, panic) = refl

-- The job with a new state of the stage at an index.
abbrev pub put_stage : Job → ℕ → StageState → Job
put_stage j i s = record j { stages = set j.stages i s }

-- A call of `stage_mut` is refused, or lets `f` change the stage of that kind.
pub stage_mut_cases {ℓ} :
    (P : Job × Result (Unit {0}) → Type ℓ) (j : Job) (kind : StageKind)
    (f : StageState → StageState × Result (Unit {0}))
    → ((e : DomainError) → P (j, err e))
    → ((i : ℕ) (s : StageState)
        → get_elem? j.stages i ≡ some s
        → kind_eq s.kind kind ≡ true
        → P (put_stage j i (f s).0, (f s).1))
    → P (stage_mut j kind f)
unfolding stage_mut
stage_mut_cases P j kind f same changed = elim (Option-cases (stage_index j.stages kind)) [
  | inl e ↦ rw (e, stage_mut) (same (missing_stage kind))
  | inr (i, e) ↦
      let (s, es, k) = position-get_elem? (λ s. kind_eq s.kind kind) j.stages i e in
      rw (e, stage_mut) (rw (es, with_stage) (changed i s es k))
]

-- The test of the stage before a stage that is there answers.
prerequisite_missing-total :
    (ss : List StageState) (i : ℕ) (s : StageState)
    → get_elem? ss i ≡ some s
    → (b : Bool) × (prerequisite_missing ss i ≡ ok b)
unfolding prerequisite_missing
prerequisite_missing-total ss zero s e = (false, refl)
prerequisite_missing-total [] (suc i) s e = cc
prerequisite_missing-total (x ∷ ss) (suc zero) s e = (not (prerequisite_satisfied x.status), refl)
prerequisite_missing-total (x ∷ ss) (suc (suc i)) s e = prerequisite_missing-total ss (suc i) s e

enter_at_cases {ℓ} :
    (P : Job × Result (Unit {0}) → Type ℓ) (j : Job) (kind : StageKind) (verb : String)
    (to : StageStatus) (i : ℕ) (s : StageState)
    → job_is_running j.status ≡ true
    → stage_index j.stages kind ≡ some i
    → get_elem? j.stages i ≡ some s
    → ((e : DomainError) → P (j, err e))
    → (prerequisite_missing j.stages i ≡ ok false
        → P (put_stage j i (enter_pending to s).0, (enter_pending to s).1))
    → (b : Bool) → prerequisite_missing j.stages i ≡ ok b
    → P (enter_stage j kind verb to)
unfolding enter_stage
enter_at_cases P j kind verb to i s r e es same changed true m =
    rw (r, enter_stage) (rw (e, enter_stage) (rw (m, enter_stage) (same _)))
enter_at_cases P j kind verb to i s r e es same changed false m =
    rw (r, enter_stage)
      (rw (e, enter_stage) (rw (m, enter_stage) (rw (es, with_stage) (changed m))))

-- A call of `start_stage` or `skip_stage` is refused, or the job runs, the stage before is
-- satisfied, and the stage of that kind is entered if it is pending.
pub enter_stage_cases {ℓ} :
    (P : Job × Result (Unit {0}) → Type ℓ) (j : Job) (kind : StageKind) (verb : String)
    (to : StageStatus)
    → ((e : DomainError) → P (j, err e))
    → ((i : ℕ) (s : StageState)
        → job_is_running j.status ≡ true
        → get_elem? j.stages i ≡ some s
        → prerequisite_missing j.stages i ≡ ok false
        → P (put_stage j i (enter_pending to s).0, (enter_pending to s).1))
    → P (enter_stage j kind verb to)
unfolding enter_stage
enter_stage_cases P j kind verb to same changed = elim (Bool-cases (job_is_running j.status)) [
  | inr r ↦ rw (r, enter_stage) (same _)
  | inl r ↦ elim (Option-cases (stage_index j.stages kind)) [
    | inl e ↦ rw (r, enter_stage) (rw (e, enter_stage) (same _))
    | inr (i, e) ↦
        let (s, es, _) = position-get_elem? (λ s. kind_eq s.kind kind) j.stages i e in
        let (b, m) = prerequisite_missing-total j.stages i s es in
        enter_at_cases P j kind verb to i s r e es same (changed i s r es) b m
  ]
]
