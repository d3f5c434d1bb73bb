-- ===== src/Workflow/WorkUnit/Examples.antt =====
-- The theorems of crates/domain/src/workflow/work_unit.rs at concrete units.
use video_captioner_r.Workflow.Stage.{asr}
use video_captioner_r.Workflow.WorkUnit.{
  WorkUnit, Lease, new, pending, running, failed, is_deterministic_work_unit_error, is_oom_error,
}
use video_captioner_r.Workflow.WorkUnit.Machine.{
  Command, lease_command, auto_retry_command, recover_command, oom_command, run,
}
use video_captioner_r.Workflow.WorkUnit.Invariant.{
  IsValid, unit_new-IsValid, unit_run-IsValid, lease_exclusive,
}
use video_captioner_r.Workflow.WorkUnit.Budget.{attempts_exhaust, attempts}
use video_captioner_r.Prelude.{List, [], arith, none, refl, some, ◌∷◌, ◌≡◌}

abbrev fresh : WorkUnit
fresh = record {
  id = "u0";
  job_id = "j0";
  stage = asr;
  unit_kind = "asr_chunk";
  unit_index = 0;
  input_hash = "b3";
  status = pending;
  attempt = 0;
  oom_strategy_retries = 0;
  lease = none;
  error_code = none;
  artifact = none;
}

fresh-IsValid : IsValid fresh
fresh-IsValid = unit_new-IsValid "u0" "j0" asr "asr_chunk" 0 "b3" fresh (unfold new in refl)

abbrev held : Lease
held = record { owner = "worker"; expires_at_ms = 100 }

abbrev leased : WorkUnit
leased = record fresh { status = running; lease = some held }

abbrev flaky : List Command
flaky =
    lease_command "worker" 0 100
    ∷ auto_retry_command "WORKER_TIMEOUT"
    ∷ lease_command "worker" 0 100
    ∷ oom_command
    ∷ []

unit_run-IsValid_example : IsValid (run fresh flaky)
unit_run-IsValid_example = unit_run-IsValid fresh flaky fresh-IsValid

lease_exclusive_example :
    run leased (lease_command "rival" 0 500 ∷ recover_command 99 ∷ []) ≡ leased
lease_exclusive_example =
    lease_exclusive leased held (lease_command "rival" 0 500 ∷ recover_command 99 ∷ []) refl refl
      (tt, (omega arith, tt))

attempts_exhaust_example :
    let u = run fresh (attempts 3 "worker" 0 100 "WORKER_TIMEOUT") in
    (u.status ≡ failed) × (u.error_code ≡ some "WORKER_TIMEOUT") × (u.attempt ≡ 2)
attempts_exhaust_example =
    attempts_exhaust fresh "worker" "WORKER_TIMEOUT" 0 100 refl (omega arith)
      (unfold is_deterministic_work_unit_error is_oom_error in refl)
