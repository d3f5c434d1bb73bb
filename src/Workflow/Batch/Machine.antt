-- ===== src/Workflow/Batch/Machine.antt =====
-- The methods of crates/domain/src/workflow/batch.rs as the commands of one machine.
use video_captioner_r.Workflow.Batch.{
  Batch, BatchStatus, JobTerminalStatus, DomainEvent, request_pause, resume, mark_paused, start,
  record_job_terminal, finish, request_cancel, finish_cancelled, prepare_retry,
  recover_after_restart,
}
use video_captioner_r.Prelude.{List, Result, String, [], err, ok, panic, ◌∷◌}

pub data Command : Type 0 where
  pause_command resume_command mark_paused_command start_command : Command
  record_command : String → JobTerminalStatus → Command
  finish_command : BatchStatus → Command
  cancel_command finish_cancelled_command recover_command : Command
  retry_command : String → Command

-- A command that succeeds may emit an event.
pub data Answer : Type 0 where
  refused accepted crashed : Answer
  emitted : DomainEvent → Answer

abbrev quiet : Batch × Result (Unit {0}) → Batch × Answer
quiet (b, ok _) = (b, accepted)
quiet (b, err _) = (b, refused)
quiet (b, panic) = (b, crashed)

abbrev loud : Batch × Result DomainEvent → Batch × Answer
loud (b, ok e) = (b, emitted e)
loud (b, err _) = (b, refused)
loud (b, panic) = (b, crashed)

unfoldable pub step : Batch → Command → Batch × Answer
unfolding request_pause resume mark_paused start record_job_terminal finish request_cancel
    finish_cancelled prepare_retry recover_after_restart
step b pause_command = quiet (request_pause b)
step b resume_command = quiet (resume b)
step b mark_paused_command = quiet (mark_paused b)
step b start_command = quiet (start b)
step b (record_command job_id status) = quiet (record_job_terminal b job_id status)
step b (finish_command status) = loud (finish b status)
step b cancel_command = quiet (request_cancel b)
step b finish_cancelled_command = loud (finish_cancelled b)
step b (retry_command job_id) = quiet (prepare_retry b job_id)
step b recover_command = quiet (recover_after_restart b)

unfoldable pub run : Batch → List Command → Batch
run b [] = b
run b (c ∷ cs) = run (step b c).0 cs
