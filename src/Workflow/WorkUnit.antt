-- ===== src/Workflow/WorkUnit.antt =====
-- crates/domain/src/workflow/work_unit.rs: the independently retryable unit of work and its lease.
pub mod Machine
pub mod Invariant
pub mod Budget
mod Examples
use video_captioner_r.Prelude.{
  ℕ, String, Bool, true, false, ◌||◌, not, Option, none, some, ltb, leb, if◌then◌else◌, sat_add_u32,
  str_eq, Result, ok, err, panic, invalid_argument, illegal_transition, already_terminal,
  lease_conflict, lease_required, List, [], ◌∷◌, any,
}
use video_captioner_r.Workflow.Stage.{StageKind, ArtifactRef, kind_eq}

pub data WorkUnitStatus : Type 0 where
  pending running done failed cancelled : WorkUnitStatus

abbrev pub is_terminal : WorkUnitStatus → Bool
is_terminal done = true
is_terminal failed = true
is_terminal cancelled = true
is_terminal _ = false

-- The derived `Debug` of the status.
abbrev debug : WorkUnitStatus → String
debug pending = "Pending"
debug running = "Running"
debug done = "Done"
debug failed = "Failed"
debug cancelled = "Cancelled"

abbrev work_unit_default_auto_retries : ℕ
work_unit_default_auto_retries = 2

abbrev work_unit_oom_strategy_retries : ℕ
work_unit_oom_strategy_retries = 1

abbrev deterministic_codes : List String
deterministic_codes =
    "WORKER_PROTOCOL_ERROR" ∷ "MODEL_DIGEST_MISMATCH" ∷ "MODEL_NOT_FOUND" ∷ "OPTION_UNSUPPORTED"
    ∷ "ENGINE_CAPABILITY_INSUFFICIENT" ∷ "ARTIFACT_CORRUPT" ∷ "SOURCE_CHANGED" ∷ "INPUT_NOT_FOUND"
    ∷ "INPUT_UNSUPPORTED" ∷ "AUDIO_STREAM_NOT_FOUND" ∷ "INVALID_ARGUMENT" ∷ "INVALID_CONFIG" ∷ []

unfoldable pub is_deterministic_work_unit_error : String → Bool
is_deterministic_work_unit_error code = any (str_eq code) deterministic_codes

pub is_oom_error : String → Bool
is_oom_error code = str_eq code "ASR_OOM"

pub record Lease : Type 0 where
  pub owner : String
  pub expires_at_ms : ℕ

pub record WorkUnit : Type 0 where
  pub id : String
  pub job_id : String
  pub stage : StageKind
  pub unit_kind : String
  pub unit_index : ℕ
  pub input_hash : String
  pub status : WorkUnitStatus
  pub attempt : ℕ
  pub oom_strategy_retries : ℕ
  pub lease : Option Lease
  pub error_code : Option String
  pub artifact : Option ArtifactRef

pub new : String → String → StageKind → String → ℕ → String → Result WorkUnit
new id job_id stage unit_kind unit_index input_hash =
    if str_eq input_hash ""
    then err (invalid_argument "work unit input hash cannot be empty")
    else ok (record {
      id = id;
      job_id = job_id;
      stage = stage;
      unit_kind = unit_kind;
      unit_index = unit_index;
      input_hash = input_hash;
      status = pending;
      attempt = 0;
      oom_strategy_retries = 0;
      lease = none;
      error_code = none;
      artifact = none;
    })

-- `self.status != s`.
abbrev status_eq : WorkUnitStatus → WorkUnitStatus → Bool
status_eq pending pending = true
status_eq running running = true
status_eq done done = true
status_eq failed failed = true
status_eq cancelled cancelled = true
status_eq _ _ = false

abbrev illegal {ℓ} : {A : Type ℓ} → WorkUnit → String → WorkUnit × Result A
illegal u to = (u, err (illegal_transition "WorkUnit" (debug u.status) to))

pub may_auto_retry : WorkUnit → String → Bool
may_auto_retry u code =
    if is_deterministic_work_unit_error code || is_oom_error code
    then false
    else ltb u.attempt work_unit_default_auto_retries

pub may_oom_strategy_retry : WorkUnit → Bool
may_oom_strategy_retry u = ltb u.oom_strategy_retries work_unit_oom_strategy_retries

-- A method on `&mut self` returns the unit it leaves behind and its result.
pub lease_for : WorkUnit → String → ℕ → ℕ → WorkUnit × Result (Unit {0})
lease_for u owner now_ms expires_at_ms =
    if not (status_eq u.status pending)
    then illegal u "Running"
    else if leb expires_at_ms now_ms
    then (u, err (invalid_argument "work unit lease must expire in the future"))
    else (
      record u {
        status = running;
        lease = some (record { owner = owner; expires_at_ms = expires_at_ms });
      },
      ok tt,
    )

pub complete : WorkUnit → ArtifactRef → WorkUnit × Result (Unit {0})
complete u artifact = if not (status_eq u.status running) then illegal u "Done" else elim u.lease [
  | none ↦ (u, err lease_required)
  | some _ ↦
      if not (kind_eq artifact.stage u.stage)
      then (u, err (invalid_argument "artifact stage does not match work unit stage"))
      else (
        record u { status = done; lease = none; artifact = some artifact; error_code = none },
        ok tt,
      )
]

pub fail : WorkUnit → String → WorkUnit × Result (Unit {0})
fail u code =
    if not (status_eq u.status running)
    then illegal u "Failed"
    else (record u { status = failed; lease = none; error_code = some code }, ok tt)

-- `self.fail(code)?; Ok(false)`.
abbrev then_false : WorkUnit × Result (Unit {0}) → WorkUnit × Result Bool
then_false (u, ok _) = (u, ok false)
then_false (u, err e) = (u, err e)
then_false (u, panic) = (u, panic)

pub fail_with_auto_retry : WorkUnit → String → WorkUnit × Result Bool
unfolding may_auto_retry fail
fail_with_auto_retry u code =
    if not (status_eq u.status running)
    then illegal u "auto_retry"
    else if may_auto_retry u code
    then (
      record u {
        status = pending;
        lease = none;
        attempt = sat_add_u32 u.attempt 1;
        error_code = some code;
      },
      ok true,
    )
    else then_false (fail u code)

pub requeue_after_oom_strategy_change : WorkUnit → WorkUnit × Result Bool
unfolding may_oom_strategy_retry fail
requeue_after_oom_strategy_change u =
    if not (status_eq u.status running)
    then illegal u "oom_strategy_retry"
    else if not (may_oom_strategy_retry u)
    then then_false (fail u "ASR_OOM")
    else (
      record u {
        oom_strategy_retries = sat_add_u32 u.oom_strategy_retries 1;
        status = pending;
        lease = none;
        attempt = sat_add_u32 u.attempt 1;
        error_code = some "ASR_OOM";
      },
      ok true,
    )

pub cancel : WorkUnit → WorkUnit × Result (Unit {0})
cancel u =
    if is_terminal u.status
    then (u, err (already_terminal "WorkUnit"))
    else (record u { status = cancelled; lease = none }, ok tt)

pub recover_expired : WorkUnit → ℕ → WorkUnit × Result (Unit {0})
recover_expired u now_ms = elim u.lease [
  | none ↦ (u, err lease_required)
  | some lease ↦
      if not (status_eq u.status running) || ltb now_ms lease.expires_at_ms
      then (u, err (lease_conflict "work unit lease has not expired"))
      else (record u { status = pending; lease = none; attempt = sat_add_u32 u.attempt 1 }, ok tt)
]

unfoldable pub invalidate_artifact_for_recovery : WorkUnit → String → WorkUnit × Result (Unit {0})
invalidate_artifact_for_recovery u code =
    (record u { status = pending; lease = none; artifact = none; error_code = some code }, ok tt)

unfoldable pub retry : WorkUnit → WorkUnit × Result (Unit {0})
retry u =
    if not (status_eq u.status failed || status_eq u.status cancelled)
    then illegal u "Pending"
    else (
      record u {
        status = pending;
        attempt = sat_add_u32 u.attempt 1;
        error_code = none;
        artifact = none;
      },
      ok tt,
    )
