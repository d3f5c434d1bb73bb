-- ===== src/Workflow/Batch.antt =====
-- crates/domain/src/workflow/batch.rs and event.rs: a batch of jobs under one execution profile.
pub mod Machine
pub mod Invariant
pub mod Members
pub mod Completion
pub mod Events
pub mod Records
mod Examples
use video_captioner_r.Prelude.{
  Bool, List, Result, [], already_terminal, batch_profile_mismatch, err, false, has, if◌then◌else◌,
  illegal_transition, invalid_argument, length, member_not_found, not, ok, str_eq, text_id, true,
  ◌&&◌, ◌==◌, ◌||◌, ◌∷◌, String,
}

pub record BatchExecutionProfile : Type 0 where
  pub asr_engine : String
  pub asr_model : String
  pub device : String
  pub compute_type : String

abbrev same_asr_profile : BatchExecutionProfile → BatchExecutionProfile → Bool
same_asr_profile p other =
    str_eq p.asr_engine other.asr_engine
    && (str_eq p.asr_model other.asr_model
        && (str_eq p.device other.device && str_eq p.compute_type other.compute_type))

pub data BatchStatus : Type 0 where
  pending running paused done failed cancelled : BatchStatus

abbrev pub is_terminal : BatchStatus → Bool
is_terminal done = true
is_terminal failed = true
is_terminal cancelled = true
is_terminal _ = false

-- The derived `Debug` and `PartialEq` of the status, as far as the code uses them.
abbrev debug : BatchStatus → String
debug pending = "Pending"
debug running = "Running"
debug paused = "Paused"
debug done = "Done"
debug failed = "Failed"
debug cancelled = "Cancelled"

abbrev is_pending : BatchStatus → Bool
is_pending pending = true
is_pending _ = false

abbrev pub is_running : BatchStatus → Bool
is_running running = true
is_running _ = false

abbrev pub is_paused : BatchStatus → Bool
is_paused paused = true
is_paused _ = false

-- `JobTerminalStatus`, and the `JobTerminalStatusWire` that copies it.
pub data JobTerminalStatus : Type 0 where
  job_done job_done_degraded job_failed job_cancelled : JobTerminalStatus

pub data DomainEvent : Type 0 where
  batch_reached_terminal : String → BatchStatus → DomainEvent

pub record Batch : Type 0 where
  pub id : String
  pub job_ids : List String
  pub execution_profile : BatchExecutionProfile
  pub status : BatchStatus
  pub cancel_requested : Bool
  pub pause_requested : Bool
  pub terminal_jobs : List (String × JobTerminalStatus)
  pub terminal_event_emitted : Bool

-- `job_ids.windows(2).any(|ids| ids[0] == ids[1])`.
abbrev repeats_next : List String → Bool
repeats_next [] = false
repeats_next (x ∷ []) = false
repeats_next (x ∷ y ∷ ys) = str_eq x y || repeats_next (y ∷ ys)

abbrev is_empty {ℓ} : {A : Type ℓ} → List A → Bool
is_empty [] = true
is_empty (x ∷ xs) = false

pub new : String → List String → BatchExecutionProfile → Result Batch
new id job_ids execution_profile =
    if is_empty job_ids
    then err (invalid_argument "a batch must contain at least one job")
    else if repeats_next job_ids
    then err (invalid_argument "a batch cannot contain duplicate jobs")
    else ok (record {
      id = id;
      job_ids = job_ids;
      execution_profile = execution_profile;
      status = pending;
      cancel_requested = false;
      pause_requested = false;
      terminal_jobs = [];
      terminal_event_emitted = false;
    })

abbrev illegal {ℓ} : {A : Type ℓ} → Batch → String → Batch × Result A
illegal b to = (b, err (illegal_transition "Batch" (debug b.status) to))

pub request_pause : Batch → Batch × Result (Unit {0})
request_pause b =
    if is_terminal b.status
    then (b, ok tt)
    else if b.cancel_requested
    then (b, err (invalid_argument "cannot pause a batch that has cancel requested"))
    else (record b { pause_requested = true }, ok tt)

pub resume : Batch → Batch × Result (Unit {0})
resume b = if is_terminal b.status then (b, ok tt) else (
  record b { pause_requested = false; status = if is_paused b.status then running else b.status },
  ok tt,
)

pub mark_paused : Batch → Batch × Result (Unit {0})
mark_paused b =
    if not (is_running b.status)
    then illegal b "Paused"
    else if not b.pause_requested
    then (b, err (invalid_argument "Batch can be marked Paused only after pause was requested"))
    else (record b { status = paused }, ok tt)

abbrev pub ids {ℓ} : {A : Type ℓ} → List (String × A) → List String
ids [] = []
ids ((j, a) ∷ rs) = j ∷ ids rs

has_terminal_record : Batch → String → Bool
has_terminal_record b job_id = has str_eq job_id (ids b.terminal_jobs)

transition : Batch → BatchStatus → Batch × Result (Unit {0})
transition b to =
    if not (is_pending b.status) || not (is_running to)
    then illegal b (debug to)
    else (record b { status = to }, ok tt)

pub start : Batch → Batch × Result (Unit {0})
unfolding transition
start b = transition b running

require_profile : Batch → BatchExecutionProfile → Result (Unit {0})
require_profile b profile =
    if same_asr_profile b.execution_profile profile then ok tt else err batch_profile_mismatch

-- The first record of the job gets the status, or a new record is pushed.
pub put_record :
    String
    → JobTerminalStatus
    → List (String × JobTerminalStatus)
    → List (String × JobTerminalStatus)
put_record job_id status [] = (job_id, status) ∷ []
put_record job_id status ((j, s) ∷ rs) =
    if str_eq j job_id then (j, status) ∷ rs else (j, s) ∷ put_record job_id status rs

pub record_job_terminal : Batch → String → JobTerminalStatus → Batch × Result (Unit {0})
record_job_terminal b job_id status =
    if not (is_running b.status)
    then illegal b "record_job_terminal"
    else if not (has str_eq job_id b.job_ids)
    then (b, err (member_not_found "Batch" (text_id job_id)))
    else (record b { terminal_jobs = put_record job_id status b.terminal_jobs }, ok tt)

pub finish : Batch → BatchStatus → Batch × Result DomainEvent
finish b status =
    if not (is_terminal status)
    then (b, err (invalid_argument "batch finish status must be terminal"))
    else if not (is_running b.status)
    then (b, err (already_terminal "Batch"))
    else if not (length b.terminal_jobs == length b.job_ids)
    then (b, err (invalid_argument "all batch jobs must be terminal before the batch finishes"))
    else (
      record b { status = status; terminal_event_emitted = true },
      ok (batch_reached_terminal b.id status),
    )

pub request_cancel : Batch → Batch × Result (Unit {0})
request_cancel b =
    if is_terminal b.status
    then (b, ok tt)
    else (record b { cancel_requested = true; pause_requested = false }, ok tt)

pub finish_cancelled : Batch → Batch × Result DomainEvent
unfolding finish
finish_cancelled b =
    if not b.cancel_requested
    then (b, err (invalid_argument "batch cancel finish requires a prior request_cancel"))
    else finish b cancelled

-- `self.terminal_jobs.retain(|(candidate, _)| candidate != job_id)`.
pub drop_records : String → List (String × JobTerminalStatus) → List (String × JobTerminalStatus)
drop_records job_id [] = []
drop_records job_id ((j, s) ∷ rs) =
    if str_eq j job_id then drop_records job_id rs else (j, s) ∷ drop_records job_id rs

unfoldable pub prepare_retry : Batch → String → Batch × Result (Unit {0})
prepare_retry b job_id =
    if not (has str_eq job_id b.job_ids)
    then (b, err (member_not_found "Batch" (text_id job_id)))
    else (
      record b {
        terminal_jobs = drop_records job_id b.terminal_jobs;
        terminal_event_emitted = false;
        cancel_requested = false;
        pause_requested = false;
        status =
            if is_terminal b.status || (is_running b.status || is_paused b.status)
            then pending
            else b.status;
      },
      ok tt,
    )

pub recover_after_restart : Batch → Batch × Result (Unit {0})
recover_after_restart b =
    (record b { status = if is_running b.status then pending else b.status }, ok tt)
