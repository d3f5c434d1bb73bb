-- ===== src/Workflow/Batch/Records.antt =====
-- The terminal records of a batch, and the error paths (crates/domain/src/workflow/batch.rs).
use video_captioner_r.Workflow.Batch.{
  Batch, BatchStatus, JobTerminalStatus, put_record, drop_records,
}
use video_captioner_r.Workflow.Batch.Machine.{
  Answer, emitted, retry_command, refused, record_command, crashed, accepted, Command, step,
}
use video_captioner_r.Prelude.{
  List, Option, String, [], arith, false, if◌then◌else◌, none, refl, some, str_eq, str_eq_iff, ◌∷◌,
  ◌≡◌,
}

abbrev pub record_of : String → List (String × JobTerminalStatus) → Option JobTerminalStatus
record_of k [] = none
record_of k ((j, s) ∷ rs) = if str_eq j k then some s else record_of k rs

record_of-drop_records :
    (k j : String) (rs : List (String × JobTerminalStatus))
    → record_of j (drop_records k rs) ≡ (if str_eq k j then none else record_of j rs)
unfolding drop_records
record_of-drop_records k j [] = ground arith
record_of-drop_records k j ((i, s) ∷ rs) =
    ground (arith, record_of-drop_records k j rs, str_eq_iff i k, str_eq_iff i j, str_eq_iff k j)

record_of-put_record :
    (k j : String) (s : JobTerminalStatus) (rs : List (String × JobTerminalStatus))
    → record_of j (put_record k s rs) ≡ (if str_eq k j then some s else record_of j rs)
unfolding put_record
record_of-put_record k j s [] = refl
record_of-put_record k j s ((i, t) ∷ rs) =
    ground (arith, record_of-put_record k j s rs, str_eq_iff i k, str_eq_iff i j, str_eq_iff k j)

-- An accepted record changes the outcome of the one job that it names, and nothing else of the
-- batch.
pub record_outcome :
    (b : Batch) (job_id j : String) (status : JobTerminalStatus)
    → (step b (record_command job_id status)).1 ≡ accepted
    → let b' = (step b (record_command job_id status)).0 in
      (record_of j b'.terminal_jobs
        ≡ (if str_eq job_id j then some status else record_of j b.terminal_jobs))
      × (b' ≡ record b { terminal_jobs = b'.terminal_jobs })
unfolding step
record_outcome b job_id j status h =
    ground (arith, record_of-put_record job_id j status b.terminal_jobs)

-- An accepted retry forgets the outcome of the one job that it names and keeps all others; the
-- batch is pending with no request and no announcement, and is otherwise the same.
pub retry_reopens :
    (b : Batch) (job_id j : String)
    → (step b (retry_command job_id)).1 ≡ accepted
    → let b' = (step b (retry_command job_id)).0 in
      (record_of j b'.terminal_jobs
        ≡ (if str_eq job_id j then none else record_of j b.terminal_jobs))
      × (b' ≡ record b {
        terminal_jobs = b'.terminal_jobs;
        status = BatchStatus.pending;
        cancel_requested = false;
        pause_requested = false;
        terminal_event_emitted = false;
      })
unfolding step
retry_reopens b job_id j h = ground (arith, record_of-drop_records job_id j b.terminal_jobs)

-- What a command may do to a batch: change it, emit an event with that, or leave it alone.
abbrev pub Orderly : Batch → Batch × Answer → Type 0
Orderly b (b', accepted) = Unit {0}
Orderly b (b', emitted e) = Unit {0}
Orderly b (b', refused) = b' ≡ b
Orderly b (b', crashed) = ⊥

-- Every command that is refused leaves every field of the batch as it was, and none panics.
pub batch_step-Orderly : (b : Batch) (c : Command) → Orderly b (step b c)
unfolding step
batch_step-Orderly b c = ground arith
