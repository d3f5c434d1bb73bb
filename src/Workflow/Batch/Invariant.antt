-- ===== src/Workflow/Batch/Invariant.antt =====
-- What holds of a batch between two commands (crates/domain/src/workflow/batch.rs).
use video_captioner_r.Workflow.Batch.{
  JobTerminalStatus, BatchExecutionProfile, Batch, is_terminal, is_paused, ids, new, put_record,
  drop_records,
}
use video_captioner_r.Workflow.Batch.Machine.{retry_command, record_command, Command, step, run}
use video_captioner_r.Prelude.{
  List, String, [], arith, distinct, false, has, length, ok, refl, str_eq, str_eq_iff, subset, true,
  ◌&&◌, ◌||◌, ◌∷◌, ◌≡◌,
}

pub record IsValid (b : Batch) : Type 0 where
  pub members : subset str_eq (ids b.terminal_jobs) b.job_ids ≡ true
  pub one_record_each : distinct str_eq (ids b.terminal_jobs) ≡ true
  pub emitted_iff_terminal : b.terminal_event_emitted ≡ is_terminal b.status
  pub complete_when_terminal :
      is_terminal b.status ≡ true → length b.terminal_jobs ≡ length b.job_ids
  pub cancel_clears_pause : b.cancel_requested && b.pause_requested ≡ false
  pub paused_on_request : is_paused b.status ≡ true → b.pause_requested || b.cancel_requested ≡ true

-- A batch that the constructor accepts satisfies the invariant.
pub batch_new-IsValid :
    (id : String) (job_ids : List String) (profile : BatchExecutionProfile) (b : Batch)
    → new id job_ids profile ≡ ok b
    → IsValid b
unfolding new
batch_new-IsValid id job_ids profile b h = ground arith

has-put_record :
    (x k : String) (s : JobTerminalStatus) (rs : List (String × JobTerminalStatus))
    → has str_eq x (ids (put_record k s rs)) ≡ (str_eq k x || has str_eq x (ids rs))
unfolding put_record
has-put_record x k s [] = ground arith
has-put_record x k s ((j, t) ∷ rs) =
    ground (arith, has-put_record x k s rs, str_eq_iff j k, str_eq_iff j x, str_eq_iff k x)

distinct-put_record :
    (k : String) (s : JobTerminalStatus) (rs : List (String × JobTerminalStatus))
    → distinct str_eq (ids rs) ≡ true
    → distinct str_eq (ids (put_record k s rs)) ≡ true
unfolding put_record
distinct-put_record k s [] d = refl
distinct-put_record k s ((j, t) ∷ rs) d =
    ground
      (arith, distinct-put_record k s rs, has-put_record j k s rs, str_eq_iff j k, str_eq_iff k j)

subset-put_record :
    (k : String) (s : JobTerminalStatus) (rs : List (String × JobTerminalStatus)) (ys : List String)
    → has str_eq k ys ≡ true
    → subset str_eq (ids rs) ys ≡ true
    → subset str_eq (ids (put_record k s rs)) ys ≡ true
unfolding put_record
subset-put_record k s [] ys h d = ground arith
subset-put_record k s ((j, t) ∷ rs) ys h d = ground (arith, subset-put_record k s rs ys h)

has-drop_records :
    (x k : String) (rs : List (String × JobTerminalStatus))
    → has str_eq x (ids rs) ≡ false
    → has str_eq x (ids (drop_records k rs)) ≡ false
unfolding drop_records
has-drop_records x k [] h = refl
has-drop_records x k ((j, t) ∷ rs) h = ground (arith, has-drop_records x k rs)

distinct-drop_records :
    (k : String) (rs : List (String × JobTerminalStatus))
    → distinct str_eq (ids rs) ≡ true
    → distinct str_eq (ids (drop_records k rs)) ≡ true
unfolding drop_records
distinct-drop_records k [] d = refl
distinct-drop_records k ((j, t) ∷ rs) d =
    ground (arith, distinct-drop_records k rs, has-drop_records j k rs)

subset-drop_records :
    (k : String) (rs : List (String × JobTerminalStatus)) (ys : List String)
    → subset str_eq (ids rs) ys ≡ true
    → subset str_eq (ids (drop_records k rs)) ys ≡ true
unfolding drop_records
subset-drop_records k [] ys d = refl
subset-drop_records k ((j, t) ∷ rs) ys d = ground (arith, subset-drop_records k rs ys)

-- Every command keeps the invariant, refused or not.
pub batch_step-IsValid : (b : Batch) (c : Command) → IsValid b → IsValid (step b c).0
unfolding step
batch_step-IsValid b (record_command job_id status) v = ground (
  arith,
  distinct-put_record job_id status b.terminal_jobs,
  subset-put_record job_id status b.terminal_jobs b.job_ids,
)
batch_step-IsValid b (retry_command job_id) v = ground (
  arith,
  distinct-drop_records job_id b.terminal_jobs,
  subset-drop_records job_id b.terminal_jobs b.job_ids,
)
batch_step-IsValid b _ v = ground arith

-- Whatever commands follow, a valid batch has at most one terminal record for each job, only
-- for members, has announced its end just when it is terminal, and is terminal only with as
-- many records as members.
pub batch_run-IsValid : (b : Batch) (cs : List Command) → IsValid b → IsValid (run b cs)
unfolding run
batch_run-IsValid b [] v = v
batch_run-IsValid b (c ∷ cs) v = batch_run-IsValid (step b c).0 cs (batch_step-IsValid b c v)
