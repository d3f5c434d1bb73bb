-- ===== src/Workflow/Job/Order.antt =====
-- What the order of the stages of crates/domain/src/workflow/job.rs means for a job at work.
use native.Mathlib.Decide.{dec_lt}
use video_captioner_r.Workflow.Stage.{StageState}
use video_captioner_r.Workflow.Job.{Job, new, is_active}
use video_captioner_r.Workflow.Job.Machine.{run, Command}
use video_captioner_r.Workflow.Job.Gate.{waits, satisfied_of_gated, satisfied}
use video_captioner_r.Workflow.Job.Invariant.{job_new-IsValid, IsValid}
use video_captioner_r.Workflow.Job.Preserves.{job_run-IsValid}
use video_captioner_r.Prelude.{
  List, Option, String, arith, false, get_elem?, some, true, ℕ, ◌<◌, ◌≡◌,
}

-- After any commands given to a new job, a stage that is not pending, failed or cancelled has
-- only stages before it that are done, done degraded or skipped.
pub entered_needs_earlier :
    (id : String) (batch_id : Option String) (profile_revision source_path : String)
    (cs : List Command) (i k : ℕ) (s t : StageState)
    → get_elem? (run (new id batch_id profile_revision source_path) cs).stages i ≡ some s
    → get_elem? (run (new id batch_id profile_revision source_path) cs).stages k ≡ some t
    → i < k
    → waits t.status ≡ false
    → satisfied s ≡ true
entered_needs_earlier id batch_id profile_revision source_path cs i k s t es et lt w =
    satisfied_of_gated true _ i k s t
      (job_run-IsValid _ cs (job_new-IsValid id batch_id profile_revision source_path)).in_order es
      et lt w

-- At most one stage of a valid job is running or retrying.
pub one_active_stage :
    (j : Job) (i k : ℕ) (s t : StageState)
    → IsValid j
    → get_elem? j.stages i ≡ some s
    → get_elem? j.stages k ≡ some t
    → is_active s.status ≡ true
    → is_active t.status ≡ true
    → i ≡ k
one_active_stage j i k s t v es et a b = elim (dec_lt i k) [
  | yes lt ↦ ground (arith, satisfied_of_gated true j.stages i k s t v.in_order es et lt)
  | no ge ↦ elim (dec_lt k i) [
    | yes lt ↦ ground (arith, satisfied_of_gated true j.stages k i t s v.in_order et es lt)
    | no le ↦ omega arith
  ]
]
