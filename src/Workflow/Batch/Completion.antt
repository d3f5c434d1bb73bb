-- ===== src/Workflow/Batch/Completion.antt =====
-- A batch of crates/domain/src/workflow/batch.rs can be brought to its end.
use mathlib.Core.List.{append_assoc, append-nil}
use video_captioner_r.Workflow.Batch.{
  Batch, BatchStatus, BatchExecutionProfile, JobTerminalStatus, new, ids, put_record, is_running,
  is_terminal, batch_reached_terminal,
}
use video_captioner_r.Workflow.Batch.Machine.{
  Command, start_command, record_command, finish_command, emitted, step, run,
}
use video_captioner_r.Prelude.{
  ◌++◌, ◌∙◌, ap, sym, Bool, List, [], all, arith, distinct, false, has, length, not, ok, refl,
  str_eq, str_eq_iff, subset, true, ◌∷◌, ◌≡◌, String,
}

-- One terminal record for each job.
abbrev pub records : (String → JobTerminalStatus) → List String → List Command
records outcome [] = []
records outcome (j ∷ js) = record_command j (outcome j) ∷ records outcome js

-- No job of the list has a record.
abbrev unrecorded : List (String × JobTerminalStatus) → List String → Bool
unrecorded rs js = all (λ j. not (has str_eq j (ids rs))) js

-- The records that the commands leave behind.
abbrev pub outcomes : (String → JobTerminalStatus) → List String → List (String × JobTerminalStatus)
outcomes outcome [] = []
outcomes outcome (j ∷ js) = (j, outcome j) ∷ outcomes outcome js

length-outcomes :
    (outcome : String → JobTerminalStatus) (js : List String)
    → length (outcomes outcome js) ≡ length js
length-outcomes outcome [] = refl
length-outcomes outcome (j ∷ js) = omega (arith, length-outcomes outcome js)

put_record-append :
    (j : String) (s : JobTerminalStatus) (rs : List (String × JobTerminalStatus))
    → has str_eq j (ids rs) ≡ false
    → put_record j s rs ≡ rs ++ (j, s) ∷ []
unfolding put_record
put_record-append j s [] h = refl
put_record-append j s ((i, t) ∷ rs) h =
    let absent : str_eq i j ≡ false = ground arith in
    rw absent (ap (◌∷◌ (i, t)) (put_record-append j s rs (ground arith)))

has-put_record :
    (j x : String) (s : JobTerminalStatus) (rs : List (String × JobTerminalStatus))
    → str_eq x j ≡ false
    → has str_eq x (ids rs) ≡ false
    → has str_eq x (ids (put_record j s rs)) ≡ false
unfolding put_record
has-put_record j x s [] n h = ground (arith, str_eq_iff j x, str_eq_iff x j)
has-put_record j x s ((i, t) ∷ rs) n h =
    ground (arith, has-put_record j x s rs n, str_eq_iff j x, str_eq_iff x j)

unrecorded-put_record :
    (j : String) (s : JobTerminalStatus) (rs : List (String × JobTerminalStatus)) (js : List String)
    → has str_eq j js ≡ false
    → unrecorded rs js ≡ true
    → unrecorded (put_record j s rs) js ≡ true
unrecorded-put_record j s rs [] n u = refl
unrecorded-put_record j s rs (x ∷ js) n u =
    ground (arith, unrecorded-put_record j s rs js, has-put_record j x s rs)

step-record :
    (b : Batch) (j : String) (s : JobTerminalStatus)
    → is_running b.status ≡ true
    → has str_eq j b.job_ids ≡ true
    → (step b (record_command j s)).0 ≡ record b { terminal_jobs = put_record j s b.terminal_jobs }
unfolding step
step-record b j s r h = ground arith

run-records :
    (outcome : String → JobTerminalStatus) (b : Batch) (js : List String)
    → is_running b.status ≡ true
    → subset str_eq js b.job_ids ≡ true
    → distinct str_eq js ≡ true
    → unrecorded b.terminal_jobs js ≡ true
    → run b (records outcome js)
      ≡ record b { terminal_jobs = b.terminal_jobs ++ outcomes outcome js }
unfolding run
run-records outcome b [] r s d u = rw (append-nil b.terminal_jobs) refl
run-records outcome b (j ∷ js) r s d u =
    let next : Batch = record b { terminal_jobs = put_record j (outcome j) b.terminal_jobs } in
    let e =
      run-records outcome next js r (ground arith) (ground arith)
        (unrecorded-put_record j (outcome j) b.terminal_jobs js (ground arith) (ground arith)) in
    let same : put_record j (outcome j) b.terminal_jobs ++ outcomes outcome js
        ≡ b.terminal_jobs ++ (j, outcome j) ∷ outcomes outcome js =
      ap (λ o. o ++ outcomes outcome js)
        (put_record-append j (outcome j) b.terminal_jobs (ground arith))
      ∙ append_assoc b.terminal_jobs ((j, outcome j) ∷ []) (outcomes outcome js) in
    rw (step-record b j (outcome j) r (ground arith), run)
      (e ∙ ap (λ o. (let made : Batch = record b { terminal_jobs = o } in made)) same)

subset-cons :
    (y : String) (xs ys : List String)
    → subset str_eq xs ys ≡ true
    → subset str_eq xs (y ∷ ys) ≡ true
subset-cons y [] ys h = refl
subset-cons y (x ∷ xs) ys h = ground (arith, subset-cons y xs ys)

subset_self : (js : List String) → subset str_eq js js ≡ true
subset_self [] = refl
subset_self (j ∷ js) = ground (arith, subset-cons j js js (subset_self js), str_eq_iff j j)

unrecorded_none : (js : List String) → unrecorded [] js ≡ true
unrecorded_none [] = refl
unrecorded_none (j ∷ js) = unrecorded_none js

new_facts :
    (id : String) (job_ids : List String) (profile : BatchExecutionProfile) (b : Batch)
    → new id job_ids profile ≡ ok b
    → (b.id ≡ id)
      × (b.job_ids ≡ job_ids)
      × (b.terminal_jobs ≡ [])
      × ((step b start_command).0 ≡ record b { status = BatchStatus.running })
unfolding new step
new_facts id job_ids profile b h = ground arith

step-finish :
    (b : Batch) (status : BatchStatus)
    → is_running b.status ≡ true
    → is_terminal status ≡ true
    → length b.terminal_jobs ≡ length b.job_ids
    → step b (finish_command status) ≡ (
      record b { status = status; terminal_event_emitted = true },
      emitted (batch_reached_terminal b.id status),
    )
unfolding step
step-finish b status r t l = ground arith

-- A batch that the constructor accepts with no job twice ends: started, with one outcome
-- recorded for each job, whatever it is, it is finished with any terminal status. Then it has
-- this status, the mark that its end is emitted and just these outcomes, is otherwise
-- unchanged, and emits its end.
pub distinct_ends :
    (id : String) (job_ids : List String) (profile : BatchExecutionProfile) (b : Batch)
    (outcome : String → JobTerminalStatus) (status : BatchStatus)
    → new id job_ids profile ≡ ok b
    → distinct str_eq job_ids ≡ true
    → is_terminal status ≡ true
    → step (run b (start_command ∷ records outcome job_ids)) (finish_command status) ≡ (
      record b {
        status = status;
        terminal_event_emitted = true;
        terminal_jobs = outcomes outcome job_ids;
      },
      emitted (batch_reached_terminal id status),
    )
unfolding run
distinct_ends id job_ids profile b outcome status h d t =
    let (i, js, none_yet, started) = new_facts id job_ids profile b h in
    let at_work : Batch = record b { status = BatchStatus.running } in
    let e =
      run-records outcome at_work job_ids refl (rw js (subset_self job_ids)) d
        (rw none_yet (unrecorded_none job_ids)) in
    let ready : Batch = record at_work { terminal_jobs = outcomes outcome job_ids } in
    let recorded : run at_work (records outcome job_ids) ≡ ready =
      e
      ∙ ap
          (λ o.
            (let made : Batch = record at_work { terminal_jobs = o ++ outcomes outcome job_ids } in
              made))
          none_yet in
    rw (started, run)
      (rw recorded (
        rw (sym i) (
          step-finish ready status refl t
            (omega (arith, length-outcomes outcome job_ids, ap length js)))))
