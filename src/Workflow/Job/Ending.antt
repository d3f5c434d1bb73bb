-- ===== src/Workflow/Job/Ending.antt =====
-- How a job of crates/domain/src/workflow/job.rs ends, and that it stays ended.
use video_captioner_r.Workflow.Stage.{
  is_terminal, JobStatus, ArtifactRef, StageKind, StageStatus, StageState, job_is_terminal,
}
use video_captioner_r.Workflow.Job.{Job}
use video_captioner_r.Workflow.Job.Stages.{
  start_stage, skip_stage, enter_stage, then_job_failed, fail_active, complete_stage,
  complete_running, fail_stage,
}
use video_captioner_r.Workflow.Job.Lifecycle.{
  start, request_cancel, recover_after_restart, fail, cancel, terminal_status, finish, is_failed,
  is_degraded, is_cancelled,
}
use video_captioner_r.Workflow.Job.Machine.{
  start_stage_command, start_command, skip_stage_command, request_cancel_command, recover_command,
  fail_stage_command, fail_command, enter_stage_cases, complete_stage_command, cancel_command,
  answer_job, stage_mut_cases, retry_command, refused, record_command, invalidate_command,
  finish_command, accepted, Command, step,
}
use video_captioner_r.Workflow.Job.Errors.{put_stage_self}
use video_captioner_r.Workflow.Job.Quiet.{IsSettled, active}
use video_captioner_r.Prelude.{
  String, set-get_elem?, ◌∙◌, Bool, List, [], all, any, arith, false, get_elem?, inl, inr, not,
  refl, some, suc, true, zero, ℕ, ◌∷◌, ◌≡◌, ◌≢◌, ◌⊎◌,
}

abbrev pub unfinished : StageState → Bool
unfinished s = not (is_terminal s.status)

-- Done or skipped, with nothing to report.
abbrev clean : StageState → Bool
clean s = elim s.status [ StageStatus.done ↦ true | StageStatus.skipped ↦ true | _ ↦ false ]

-- What the stages say of the whole job.
abbrev pub Verdict : List StageState → JobStatus → Type 0
Verdict ss JobStatus.failed = any is_failed ss ≡ true
Verdict ss JobStatus.done_degraded = (any is_failed ss ≡ false) × (any is_degraded ss ≡ true)
Verdict ss JobStatus.cancelled =
    (any is_failed ss ≡ false) × (any is_degraded ss ≡ false) × (any is_cancelled ss ≡ true)
Verdict ss JobStatus.done = all clean ss ≡ true
Verdict ss _ = ⊥

clean_of_none :
    (ss : List StageState)
    → any unfinished ss ≡ false
    → any is_failed ss ≡ false
    → any is_degraded ss ≡ false
    → any is_cancelled ss ≡ false
    → all clean ss ≡ true
clean_of_none [] u f d c = refl
clean_of_none (s ∷ ss) u f d c = ground (arith, clean_of_none ss)

-- Finish is accepted exactly when the job runs and every stage is terminal, and then the status
-- is what the stages say: failed, else degraded, else cancelled, else all done or skipped.
pub finish-Verdict :
    (j : Job)
    → (((step j finish_command).1 ≡ accepted)
        × (j.status ≡ JobStatus.running)
        × (any unfinished j.stages ≡ false)
        × Verdict j.stages (step j finish_command).0.status)
      ⊎ (((step j finish_command).1 ≡ refused)
          × ((j.status ≢ JobStatus.running) ⊎ (any unfinished j.stages ≡ true)))
unfolding step finish terminal_status
finish-Verdict j = ground (arith, clean_of_none j.stages)

-- The commands that may change a job that has ended.
abbrev reopens : Command → Bool
reopens (retry_command from_stage) = true
reopens (invalidate_command kind) = true
reopens (record_command kind artifact) = true
reopens _ = false

quiet-get_elem? :
    (ss : List StageState) (i : ℕ) (s : StageState)
    → any active ss ≡ false
    → get_elem? ss i ≡ some s
    → active s ≡ false
quiet-get_elem? [] i s q e = cc
quiet-get_elem? (x ∷ ss) zero s q e = ground arith
quiet-get_elem? (x ∷ ss) (suc i) s q e = quiet-get_elem? ss i s (ground arith) e

quiet_of_terminal_job :
    (j : Job) → job_is_terminal j.status ≡ true → IsSettled j → any active j.stages ≡ false
quiet_of_terminal_job j t (inl q) = q
quiet_of_terminal_job j t (inr e) = ground arith

complete_idle :
    (j : Job) (kind : StageKind) (a : ArtifactRef) (degraded : Bool)
    → any active j.stages ≡ false
    → (complete_stage j kind a degraded).0 ≡ j
unfolding complete_stage
complete_idle j kind a degraded q =
    stage_mut_cases (λ r. r.0 ≡ j) j kind (complete_running kind a degraded) (λ e. refl)
      λ i s e _.
        put_stage_self j i s _ e
          (unfold complete_running in ground (arith, quiet-get_elem? j.stages i s q e))

fail_idle : (j : Job) (kind : StageKind) → any active j.stages ≡ false → (fail_stage j kind).0 ≡ j
unfolding fail_stage
fail_idle j kind q =
    stage_mut_cases (λ r. (then_job_failed r).0 ≡ j) j kind fail_active (λ e. refl)
      λ i s e _. ground (arith, quiet-get_elem? j.stages i s q e, set-get_elem? j.stages i s e)

whole_idle :
    (j : Job)
    → job_is_terminal j.status ≡ true
    → ((start j).0 ≡ j)
      × ((finish j).0 ≡ j)
      × ((recover_after_restart j).0 ≡ j)
      × ((cancel j).0 ≡ j)
      × ((request_cancel j).0 ≡ j)
      × ((fail j).0 ≡ j)
unfolding start finish recover_after_restart cancel request_cancel fail
whole_idle j t =
    (ground arith, ground arith, ground arith, ground arith, ground arith, ground arith)

enter_idle :
    (j : Job) (kind : StageKind) (verb : String) (to : StageStatus)
    → job_is_terminal j.status ≡ true
    → (enter_stage j kind verb to).0 ≡ j
enter_idle j kind verb to t =
    enter_stage_cases (λ r. r.0 ≡ j) j kind verb to (λ e. refl) λ i s r e m. absurd (ground arith)

-- A job that has ended with no stage at work is changed only by a retry, an invalidation or a
-- new transcript revision.
pub ended_stays :
    (j : Job) (c : Command)
    → IsSettled j
    → job_is_terminal j.status ≡ true
    → reopens c ≡ false
    → (step j c).0 ≡ j
unfolding step
ended_stays j (record_command kind a) h t r = cc
ended_stays j (invalidate_command kind) h t r = cc
ended_stays j (retry_command from_stage) h t r = cc
ended_stays j start_command h t r = answer_job (start j) ∙ (whole_idle j t).0
ended_stays j finish_command h t r = answer_job (finish j) ∙ (whole_idle j t).1
ended_stays j recover_command h t r = answer_job (recover_after_restart j) ∙ (whole_idle j t).2
ended_stays j cancel_command h t r = answer_job (cancel j) ∙ (whole_idle j t).3
ended_stays j request_cancel_command h t r = answer_job (request_cancel j) ∙ (whole_idle j t).4
ended_stays j fail_command h t r = answer_job (fail j) ∙ (whole_idle j t).5
ended_stays j (start_stage_command kind) h t r =
    answer_job (start_stage j kind)
    ∙ (unfold start_stage in enter_idle j kind "start_" StageStatus.running t)
ended_stays j (skip_stage_command kind) h t r =
    answer_job (skip_stage j kind)
    ∙ (unfold skip_stage in enter_idle j kind "skip_" StageStatus.skipped t)
ended_stays j (fail_stage_command kind) h t r =
    answer_job (fail_stage j kind) ∙ fail_idle j kind (quiet_of_terminal_job j t h)
ended_stays j (complete_stage_command kind a degraded) h t r =
    answer_job (complete_stage j kind a degraded)
    ∙ complete_idle j kind a degraded (quiet_of_terminal_job j t h)
