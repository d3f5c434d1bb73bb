-- ===== src/Workflow/Batch/Members.antt =====
-- The members of a batch of crates/domain/src/workflow/batch.rs, and when it may end.
use video_captioner_r.Workflow.Batch.{
  Batch, BatchStatus, BatchExecutionProfile, JobTerminalStatus, DomainEvent, batch_reached_terminal,
  is_terminal, ids, new,
}
use video_captioner_r.Workflow.Batch.Machine.{finish_command, emitted, Command, step, run}
use video_captioner_r.Workflow.Batch.Invariant.{batch_new-IsValid, IsValid, batch_step-IsValid}
use video_captioner_r.Prelude.{
  List, String, [], ap, arith, distinct, false, has, has_of_subset, length, length_of_repeated, ok,
  refl, str_eq, str_eq_iff, subst, suc, sym, true, ◌<◌, ◌∙◌, ◌∷◌, ◌≡◌,
}

length-ids : (rs : List (String × JobTerminalStatus)) → length (ids rs) ≡ length rs
length-ids [] = refl
length-ids ((j, s) ∷ rs) = ap suc (length-ids rs)

finish_facts :
    (b : Batch) (status : BatchStatus) (e : DomainEvent)
    → (step b (finish_command status)).1 ≡ emitted e
    → (e ≡ batch_reached_terminal b.id status)
      × (is_terminal status ≡ true)
      × ((step b (finish_command status)).0
          ≡ record b { status = status; terminal_event_emitted = true })
      × (length b.terminal_jobs ≡ length b.job_ids)
unfolding step
finish_facts b status e h = ground arith

-- A finish that emits an event emits the end of this batch with the status asked for, a
-- terminal one, and every member job then has a terminal record, in a batch that satisfies the
-- invariant.
pub finish_covers :
    (b : Batch) (status : BatchStatus) (e : DomainEvent) (job_id : String)
    → IsValid b
    → (step b (finish_command status)).1 ≡ emitted e
    → has str_eq job_id b.job_ids ≡ true
    → (e ≡ batch_reached_terminal b.id status)
      × (is_terminal status ≡ true)
      × ((step b (finish_command status)).0.status ≡ status)
      × (has str_eq job_id (ids (step b (finish_command status)).0.terminal_jobs) ≡ true)
finish_covers b status e job_id v h m =
    let (event, ends, same, full) = finish_facts b status e h in
    (
      event,
      ends,
      ap (λ b'. b'.status) same,
      subst (λ b'. has str_eq job_id (ids b'.terminal_jobs) ≡ true) (sym same)
          (has_of_subset str_eq str_eq_iff (ids b.terminal_jobs) b.job_ids job_id v.one_record_each
            v.members (sym full ∙ sym (length-ids b.terminal_jobs)) m),
    )

step-job_ids : (b : Batch) (c : Command) → (step b c).0.job_ids ≡ b.job_ids
unfolding step
step-job_ids b c = ground arith

fewer_records :
    (b : Batch)
    → IsValid b
    → distinct str_eq b.job_ids ≡ false
    → length b.terminal_jobs < length b.job_ids
fewer_records b v r = omega (
  arith,
  length_of_repeated str_eq str_eq_iff (ids b.terminal_jobs) b.job_ids v.one_record_each v.members
      r,
  length-ids b.terminal_jobs,
)

step_of_repeated :
    (b : Batch) (c : Command)
    → length b.terminal_jobs < length b.job_ids
    → is_terminal b.status ≡ false
    → is_terminal (step b c).0.status ≡ false
unfolding step
step_of_repeated b c l t = ground arith

never_ends :
    (b : Batch) (cs : List Command)
    → IsValid b
    → distinct str_eq b.job_ids ≡ false
    → is_terminal b.status ≡ false
    → is_terminal (run b cs).status ≡ false
unfolding run
never_ends b [] v r t = t
never_ends b (c ∷ cs) v r t =
    never_ends (step b c).0 cs (batch_step-IsValid b c v) (rw step-job_ids r)
      (step_of_repeated b c (fewer_records b v r) t)

-- A batch that the constructor accepts with a job in two places never ends, whatever commands
-- follow.
pub repeated_never_ends :
    (id : String) (job_ids : List String) (profile : BatchExecutionProfile) (b : Batch)
    (cs : List Command)
    → new id job_ids profile ≡ ok b
    → distinct str_eq job_ids ≡ false
    → is_terminal (run b cs).status ≡ false
unfolding new
repeated_never_ends id job_ids profile b cs h r =
    never_ends b cs (batch_new-IsValid id job_ids profile b h) (ground arith) (ground arith)
