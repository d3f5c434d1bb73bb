-- ===== src/Workflow/WorkUnit/Machine.antt =====
-- The methods of crates/domain/src/workflow/work_unit.rs as the commands of one machine.
use video_captioner_r.Prelude.{panic, ℕ, String, Bool, true, false, List, [], ◌∷◌, Result, ok, err}
use video_captioner_r.Workflow.Stage.{ArtifactRef}
use video_captioner_r.Workflow.WorkUnit.{
  WorkUnit, lease_for, complete, fail, fail_with_auto_retry, requeue_after_oom_strategy_change,
  cancel, recover_expired, invalidate_artifact_for_recovery, retry,
}

pub data Command : Type 0 where
  lease_command : String → ℕ → ℕ → Command
  complete_command : ArtifactRef → Command
  fail_command : String → Command
  auto_retry_command : String → Command
  oom_command : Command
  cancel_command : Command
  recover_command : ℕ → Command
  invalidate_command : String → Command
  retry_command : Command

-- What a command answers: refused with no change promised, done, or the `bool` of a requeue.
pub data Answer : Type 0 where
  refused accepted requeued gave_up crashed : Answer

abbrev unit_answer : WorkUnit × Result (Unit {0}) → WorkUnit × Answer
unit_answer (u, ok _) = (u, accepted)
unit_answer (u, err _) = (u, refused)
unit_answer (u, panic) = (u, crashed)

abbrev bool_answer : WorkUnit × Result Bool → WorkUnit × Answer
bool_answer (u, ok true) = (u, requeued)
bool_answer (u, ok false) = (u, gave_up)
bool_answer (u, err _) = (u, refused)
bool_answer (u, panic) = (u, crashed)

unfoldable pub step : WorkUnit → Command → WorkUnit × Answer
unfolding lease_for complete fail fail_with_auto_retry requeue_after_oom_strategy_change cancel
    recover_expired invalidate_artifact_for_recovery retry
step u (lease_command owner now_ms expires_at_ms) =
    unit_answer (lease_for u owner now_ms expires_at_ms)
step u (complete_command artifact) = unit_answer (complete u artifact)
step u (fail_command code) = unit_answer (fail u code)
step u (auto_retry_command code) = bool_answer (fail_with_auto_retry u code)
step u oom_command = bool_answer (requeue_after_oom_strategy_change u)
step u cancel_command = unit_answer (cancel u)
step u (recover_command now_ms) = unit_answer (recover_expired u now_ms)
step u (invalidate_command code) = unit_answer (invalidate_artifact_for_recovery u code)
step u retry_command = unit_answer (retry u)

unfoldable pub run : WorkUnit → List Command → WorkUnit
run u [] = u
run u (c ∷ cs) = run (step u c).0 cs
