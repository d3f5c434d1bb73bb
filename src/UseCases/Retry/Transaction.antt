-- ===== src/UseCases/Retry/Transaction.antt =====
-- crates/core/src/use_cases/retry_job.rs: what a retry asks the store to write.
use video_captioner_r.UseCases.Retry.{make_request}
use video_captioner_r.Workflow.Batch.{Batch}
use video_captioner_r.Workflow.Job.Lifecycle.{prepare_retry}
use video_captioner_r.Workflow.Job.Invariant.{IsValid}
use video_captioner_r.Workflow.Job.Retry.{retried}
use video_captioner_r.Workflow.WorkUnit.{running}
use video_captioner_r.UseCases.Retry.Stages.{
  reset_units_running, stages_agree, Waits, reset_units-Waits,
}
use video_captioner_r.UseCases.{changed-eq-gives}
use video_captioner_r.Workflow.Stage.{StageKind}
use video_captioner_r.Workflow.Job.{kinds, job_is_retryable, Job}
use video_captioner_r.Workflow.WorkUnit.{WorkUnit}
use video_captioner_r.UseCases.{
  ok_or, changed, Versioned, gives, fails, panics, >>=-eq-gives, ok_or-eq-gives,
}
use video_captioner_r.UseCases.Retry.{
  update_batch, partition_stages, App, plan_job, plan_snapshot, plan_from, plan_units,
  snapshot_not_found, job_not_found, no_snapshot, Ports, RetryJobCommand, RetryPlan,
  RetryTransactionRequest, execute, prepare, finish_plan, resolve_start_stage, reset_units,
  stage_rank,
}
use video_captioner_r.Prelude.{
  get_elem?, true, ◌≤◌, subst, sym, All, drop, false, ok, Bool-cases, inl, inr, List, Option, [],
  ap, none, refl, some, ℕ, ◌∙◌, ◌∷◌, ◌≡◌,
}

-- The steps that lead to a plan.
record Led {Snapshot Command : Type 0} (ports : Ports Snapshot Command) (command : RetryJobCommand)
    (p : RetryPlan × Option RetryTransactionRequest × Snapshot) : Type 0 where
  job : Versioned Job
  snapshot : Snapshot
  start_stage : StageKind
  units : List (Versioned WorkUnit)
  reset : List (WorkUnit × ℕ)
  loaded : ports.load_job command.job_id ≡ gives (some job)
  resolved : resolve_start_stage job.value command.from_stage ≡ gives start_stage
  listed : ports.list_for_job command.job_id ≡ gives units
  units_reset : reset_units (stage_rank start_stage) units ≡ gives reset
  finished : finish_plan ports command job snapshot start_stage reset ≡ gives p

module _ {Snapshot Command : Type 0} (ports : Ports Snapshot Command)
    (command : RetryJobCommand) where
  prepare-Led :
      (p : RetryPlan × Option RetryTransactionRequest × Snapshot)
      → prepare ports command ≡ gives p
      → Led ports command p
  unfolding prepare plan_job plan_snapshot plan_from plan_units
  prepare-Led p h =
      let (loaded, a, h1) = >>=-eq-gives (ports.load_job command.job_id) _ h in
      let (job, b, h2) =
        >>=-eq-gives (ok_or (job_not_found command.job_id) loaded) (plan_job ports command) h1 in
      elim (Bool-cases (job_is_retryable job.value.status)) [
        | inr no_retry ↦ absurd (cc (rw no_retry at h2))
        | inl r ↦
            let (id, c, h3) =
              >>=-eq-gives (ok_or (no_snapshot command.job_id) job.value.execution_snapshot_id)
                (plan_snapshot ports command job) (rw r at h2) in
            let (found, d, h4) = >>=-eq-gives (ports.load_execution_snapshot id) _ h3 in
            let (snapshot, e, h5) =
              >>=-eq-gives (ok_or (snapshot_not_found id command.job_id) found)
                (plan_from ports command job) h4 in
            let (start_stage, f, h6) =
              >>=-eq-gives (resolve_start_stage job.value command.from_stage)
                (plan_units ports command job snapshot) h5 in
            let (units, g, h7) = >>=-eq-gives (ports.list_for_job command.job_id) _ h6 in
            let (reset, k, h8) =
              >>=-eq-gives (reset_units (stage_rank start_stage) units)
                (finish_plan ports command job snapshot start_stage) h7 in
            record {
              job = job;
              snapshot = snapshot;
              start_stage = start_stage;
              units = units;
              reset = reset;
              loaded = a ∙ ap gives (ok_or-eq-gives (job_not_found command.job_id) loaded b);
              resolved = f;
              listed = g;
              units_reset = k;
              finished = h8;
            }
      ]

  -- A request is written only by a plan that has one.
  written :
      (request : RetryTransactionRequest)
      → (execute ports command).0 ≡ request ∷ []
      → (plan : RetryPlan) × (snapshot : Snapshot) × (prepare ports command
          ≡ gives (plan, some request, snapshot))
  unfolding execute
  written request h = from (prepare ports command) refl h
    where
      from :
          (r : App (RetryPlan × Option RetryTransactionRequest × Snapshot))
          → prepare ports command ≡ r
          → (execute ports command).0 ≡ request ∷ []
          → (plan : RetryPlan) × (snapshot : Snapshot) × (r ≡ gives (plan, some request, snapshot))
      from panics e h = cc (rw (e, execute) at h)
      from (fails why) e h = cc (rw (e, execute) at h)
      from (gives (plan, none, snapshot)) e h = cc (rw (e, execute) at h)
      from (gives (plan, some asked, snapshot)) e h = (plan, snapshot, cc (rw (e, execute) at h))

  -- What a plan with a request has done.
  record Asked (job : Versioned Job) (start_stage : StageKind) (reset : List (WorkUnit × ℕ))
      (request : RetryTransactionRequest) : Type 0 where
    wet : command.dry_run ≡ false
    kind : StageKind
    retries : prepare_retry job.value command.from_stage ≡ (request.job.0, ok kind)
    version : request.job.1 ≡ job.version
    units : request.work_units ≡ reset
    start : request.event.start_stage ≡ start_stage
    stages :
        request.event.invalidated_stages
        ≡ (partition_stages job.value.stages (stage_rank start_stage)).1

  request-Asked :
      (job : Versioned Job) (start_stage : StageKind) (reset : List (WorkUnit × ℕ))
      (retried_job : Job × StageKind) (batch : Option (Batch × ℕ))
      → command.dry_run ≡ false
      → prepare_retry job.value command.from_stage ≡ (retried_job.0, ok retried_job.1)
      → Asked job start_stage reset
          (make_request ports command job retried_job.0 batch start_stage reset)
  unfolding make_request
  request-Asked job start_stage reset retried_job batch wet retries = record {
    wet = wet;
    kind = retried_job.1;
    retries = retries;
    version = refl;
    units = refl;
    start = refl;
    stages = refl;
  }

  finish_plan-Asked :
      (job : Versioned Job) (snapshot : Snapshot) (start_stage : StageKind)
      (reset : List (WorkUnit × ℕ)) (plan : RetryPlan) (request : RetryTransactionRequest)
      (left : Snapshot)
      → finish_plan ports command job snapshot start_stage reset ≡ gives (plan, some request, left)
      → Asked job start_stage reset request
  unfolding finish_plan
  finish_plan-Asked job snapshot start_stage reset plan request left h =
      let (retried_job, a, h1) =
        >>=-eq-gives (changed (prepare_retry job.value command.from_stage)) _ h in
      elim (Bool-cases command.dry_run) [
        | inl dry ↦ absurd (cc (rw dry at h1))
        | inr wet ↦
            let (batch, b, h2) =
              >>=-eq-gives (update_batch ports retried_job.0 command.job_id) _ (rw wet at h1) in
            let made : make_request ports command job retried_job.0 batch start_stage reset
                ≡ request =
              cc h2 in
            subst (Asked job start_stage reset) made (
              request-Asked job start_stage reset retried_job batch wet
                (changed-eq-gives (prepare_retry job.value command.from_stage) a))
      ]

  Transacts : Versioned Job → RetryTransactionRequest → Type 0
  Transacts job request =
      (command.dry_run ≡ false)
      × (prepare_retry job.value command.from_stage ≡ (request.job.0, ok request.event.start_stage))
      × (request.job ≡ (retried job.value (stage_rank request.event.start_stage), job.version))
      × (request.event.invalidated_stages ≡ drop (stage_rank request.event.start_stage) kinds)
      × All (Waits (stage_rank request.event.start_stage)) request.work_units

  Asked-Transacts :
      (job : Versioned Job) (start_stage : StageKind) (units : List (Versioned WorkUnit))
      (reset : List (WorkUnit × ℕ)) (request : RetryTransactionRequest)
      → IsValid job.value
      → resolve_start_stage job.value command.from_stage ≡ gives start_stage
      → reset_units (stage_rank start_stage) units ≡ gives reset
      → Asked job start_stage reset request
      → Transacts job request
  unfolding Transacts
  Asked-Transacts job start_stage units reset request v resolved k asked =
      let (agrees, invalidated, moved) =
        stages_agree job.value command.from_stage start_stage request.job.0 asked.kind v resolved
          asked.retries in
      (
        asked.wet,
        asked.retries ∙ ap (λ kind. (request.job.0, ok kind)) (agrees ∙ sym asked.start),
        rw asked.start (cc (moved, asked.version)),
        rw asked.start (asked.stages ∙ invalidated),
        rw (asked.start, asked.units) (reset_units-Waits (stage_rank start_stage) units reset k),
      )

  planned-Asked :
      (plan : RetryPlan) (request : RetryTransactionRequest) (snapshot : Snapshot)
      (led : Led ports command (plan, some request, snapshot))
      → Asked led.job led.start_stage led.reset request
  planned-Asked plan request snapshot led =
      finish_plan-Asked led.job led.snapshot led.start_stage led.reset plan request snapshot
        led.finished

  -- A retry writes only if it is not a dry run; what it writes for a valid job is the job
  -- behind its own retry under the version that was loaded, the stages from the start stage on
  -- as invalidated, and units of these stages that are all pending.
  pub retry_transaction :
      (job : Versioned Job) (request : RetryTransactionRequest)
      → ports.load_job command.job_id ≡ gives (some job)
      → IsValid job.value
      → (execute ports command).0 ≡ request ∷ []
      → (command.dry_run ≡ false)
        × (prepare_retry job.value command.from_stage
            ≡ (request.job.0, ok request.event.start_stage))
        × (request.job ≡ (retried job.value (stage_rank request.event.start_stage), job.version))
        × (request.event.invalidated_stages ≡ drop (stage_rank request.event.start_stage) kinds)
        × All (Waits (stage_rank request.event.start_stage)) request.work_units
  unfolding Transacts
  retry_transaction job request found v h =
      let (plan, snapshot, e) = written request h in
      let led = prepare-Led (plan, some request, snapshot) e in
      let same : led.job ≡ job = cc (found, led.loaded) in
      subst (λ j. Transacts j request) same
        (Asked-Transacts led.job led.start_stage led.units led.reset request
          (subst (λ (j : Versioned Job). IsValid j.value) (sym same) v) led.resolved led.units_reset
          (planned-Asked plan request snapshot led))

  -- No plan, or no request in it: nothing is written.
  unwritten :
      ((plan : RetryPlan) (request : RetryTransactionRequest) (snapshot : Snapshot)
        → prepare ports command ≡ gives (plan, some request, snapshot)
        → ⊥)
      → (execute ports command).0 ≡ []
  unfolding execute
  unwritten never = from (prepare ports command) refl
    where
      from :
          (r : App (RetryPlan × Option RetryTransactionRequest × Snapshot))
          → prepare ports command ≡ r
          → (execute ports command).0 ≡ []
      from panics e = rw (e, execute) refl
      from (fails why) e = rw (e, execute) refl
      from (gives (plan, none, snapshot)) e = rw (e, execute) refl
      from (gives (plan, some asked, snapshot)) e = absurd (never plan asked snapshot e)

  -- A dry run writes nothing, whatever the ports answer.
  pub dry_run_writes_nothing : command.dry_run ≡ true → (execute ports command).0 ≡ []
  dry_run_writes_nothing dry = unwritten λ plan request snapshot e. cc (
    dry,
    (planned-Asked plan request snapshot (prepare-Led (plan, some request, snapshot) e)).wet,
  )

  -- A unit that still runs in the start stage or a later one stops the retry: nothing is
  -- written.
  pub running_unit_refuses :
      (start_stage : StageKind) (job : Versioned Job) (units : List (Versioned WorkUnit)) (i : ℕ)
      (u : Versioned WorkUnit)
      → ports.load_job command.job_id ≡ gives (some job)
      → resolve_start_stage job.value command.from_stage ≡ gives start_stage
      → ports.list_for_job command.job_id ≡ gives units
      → get_elem? units i ≡ some u
      → u.value.status ≡ running
      → stage_rank start_stage ≤ stage_rank u.value.stage
      → (execute ports command).0 ≡ []
  running_unit_refuses start_stage job units i u found resolved listed at runs late =
      unwritten λ plan request snapshot e.
        let led = prepare-Led (plan, some request, snapshot) e in
        let same_job : led.job ≡ job = cc (found, led.loaded) in
        let same_start : led.start_stage ≡ start_stage = cc (
          resolved,
          led.resolved,
          ap (λ (j : Versioned Job). resolve_start_stage j.value command.from_stage) same_job,
        ) in
        let same_units : led.units ≡ units = cc (listed, led.listed) in
        reset_units_running (stage_rank led.start_stage) led.units led.reset i u led.units_reset
          (rw same_units at) runs (rw same_start late)
