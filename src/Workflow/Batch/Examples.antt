-- ===== src/Workflow/Batch/Examples.antt =====
-- The theorems of crates/domain/src/workflow/batch.rs at concrete batches.
use video_captioner_r.Workflow.Batch.{
  put_record, ids, Batch, BatchExecutionProfile, BatchStatus, new, is_terminal,
  batch_reached_terminal, job_done, job_failed,
}
use video_captioner_r.Workflow.Batch.Machine.{
  emitted, Command, start_command, record_command, finish_command, step, run,
}
use video_captioner_r.Workflow.Batch.Invariant.{IsValid, batch_new-IsValid, batch_run-IsValid}
use video_captioner_r.Workflow.Batch.Members.{finish_covers, repeated_never_ends}
use video_captioner_r.Workflow.Batch.Completion.{records, distinct_ends}
use video_captioner_r.Prelude.{List, String, [], false, has, refl, str_eq, true, ◌∷◌, ◌≡◌}

abbrev profile : BatchExecutionProfile
profile = record {
  asr_engine = "whisper";
  asr_model = "small";
  device = "cpu";
  compute_type = "int8";
}

abbrev of_jobs : List String → Batch
of_jobs job_ids = record {
  id = "b";
  job_ids = job_ids;
  execution_profile = profile;
  status = BatchStatus.pending;
  cancel_requested = false;
  pause_requested = false;
  terminal_jobs = [];
  terminal_event_emitted = false;
}

abbrev pair : Batch
pair = of_jobs ("j1" ∷ "j2" ∷ [])

abbrev all_done : List Command
all_done = start_command ∷ record_command "j1" job_done ∷ record_command "j2" job_failed ∷ []

pair-IsValid : IsValid pair
pair-IsValid = batch_new-IsValid "b" ("j1" ∷ "j2" ∷ []) profile pair (unfold new in refl)

batch_run-IsValid_example : IsValid (run pair all_done)
batch_run-IsValid_example = batch_run-IsValid pair all_done pair-IsValid

finish_covers_example :
    let b = run pair all_done in
    let b' = (step b (finish_command BatchStatus.failed)).0 in
    (batch_reached_terminal "b" BatchStatus.failed ≡ batch_reached_terminal b.id BatchStatus.failed)
    × (is_terminal BatchStatus.failed ≡ true)
    × (b'.status ≡ BatchStatus.failed)
    × (has str_eq "j2" (ids b'.terminal_jobs) ≡ true)
finish_covers_example =
    finish_covers (run pair all_done) BatchStatus.failed
      (batch_reached_terminal "b" BatchStatus.failed) "j2"
      (batch_run-IsValid pair all_done pair-IsValid) (unfold run step put_record in refl)
      (unfold run step put_record in refl)

repeated_never_ends_example :
    is_terminal (run (of_jobs ("j1" ∷ "j2" ∷ "j1" ∷ [])) all_done).status ≡ false
repeated_never_ends_example =
    repeated_never_ends "b" ("j1" ∷ "j2" ∷ "j1" ∷ []) profile (of_jobs ("j1" ∷ "j2" ∷ "j1" ∷ []))
      all_done (unfold new in refl) refl

abbrev failed_pair : Batch
failed_pair = (step (run pair all_done) (finish_command BatchStatus.failed)).0

distinct_ends_example :
    step
      (run pair (start_command ∷ records (λ j. job_failed) ("j1" ∷ "j2" ∷ [])))
      (finish_command BatchStatus.failed)
    ≡ (
      record pair {
        status = BatchStatus.failed;
        terminal_event_emitted = true;
        terminal_jobs = ("j1", job_failed) ∷ ("j2", job_failed) ∷ [];
      },
      emitted (batch_reached_terminal "b" BatchStatus.failed),
    )
distinct_ends_example =
    distinct_ends "b" ("j1" ∷ "j2" ∷ []) profile pair (λ j. job_failed) BatchStatus.failed
      (unfold new in refl) refl refl
