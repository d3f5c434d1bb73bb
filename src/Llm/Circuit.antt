-- ===== src/Llm/Circuit.antt =====
-- crates/llm/src/circuit.rs: the circuit breaker of one provider.
-- An `Instant` and a `Duration` are nanoseconds. The clock is an argument: a call reads it as one
-- instant. The mutex makes each call one step.
pub mod Machine
pub mod Lock
pub mod Trip
mod Examples
use mathlib.Core.Option
use video_captioner_r.Contracts.{
  VcResult, vc_ok, vc_err, VcError, vc_error, ErrorCode, llm_auth_failed, llm_rate_limited,
  llm_provider_unavailable,
}
use video_captioner_r.Prelude.{
  Bool, Option, false, if◌then◌else◌, leb, ltb, map, none, sat_add_u32, some, true, ℕ, ◌&&◌, ◌*◌,
  ◌+s◌, ◌+◌, ◌-◌, String,
}

pub data CircuitState : Type 0 where
  closed_circuit open_circuit half_open_circuit : CircuitState

pub record CircuitBreaker : Type 0 where
  pub provider_id : String
  pub state : CircuitState
  pub consecutive_failures : ℕ
  pub opened_at : Option ℕ
  pub open_for : ℕ
  pub failure_threshold : ℕ
  pub auth_locked : Bool
  pub retry_after : Option ℕ

-- DEFAULT_OPEN_SECS and DEFAULT_FAILURE_THRESHOLD.
abbrev pub new : String → CircuitBreaker
new provider_id = record {
  provider_id = provider_id;
  state = closed_circuit;
  consecutive_failures = 0;
  opened_at = none;
  open_for = 60 * 1000000000;
  failure_threshold = 3;
  auth_locked = false;
  retry_after = none;
}

abbrev with_open_duration : ℕ → CircuitBreaker → CircuitBreaker
with_open_duration d b = record b { open_for = d }

-- `opened.elapsed()` is 0 when the clock is before `opened`.
abbrev is_due : ℕ → CircuitBreaker → Bool
is_due now b = elim b.opened_at [ none ↦ false | some opened ↦ leb b.open_for (now - opened) ]

abbrev pub is_open : CircuitState → Bool
is_open open_circuit = true
is_open closed_circuit = false
is_open half_open_circuit = false

pub refresh_locked : ℕ → CircuitBreaker → CircuitBreaker
refresh_locked now b =
    if b.auth_locked
    then b
    else if is_open b.state && is_due now b
    then record b { state = half_open_circuit }
    else b

-- `state`: the call refreshes the breaker it reads.
pub state_now : ℕ → CircuitBreaker → CircuitBreaker × CircuitState
unfolding refresh_locked
state_now now b = let r = refresh_locked now b in (r, r.state)

abbrev refused : String → String → ErrorCode → VcResult (Unit {0})
refused provider_id why code = vc_err (vc_error code ("provider " +s provider_id +s why))

abbrev by_state : CircuitBreaker → VcResult (Unit {0})
by_state b =
    if is_open b.state
    then refused b.provider_id " circuit open after repeated failures" llm_provider_unavailable
    else vc_ok tt

-- `show_instant` is the standard library's `Debug` text of an `Instant`.
pub guard : (ℕ → String) → ℕ → CircuitBreaker → CircuitBreaker × VcResult (Unit {0})
unfolding refresh_locked
guard show_instant now b =
    let r = refresh_locked now b in
    if r.auth_locked
    then (r, refused r.provider_id " circuit locked after authentication failure" llm_auth_failed)
    else elim r.retry_after [
      | none ↦ (r, by_state r)
      | some until ↦
          if ltb now until
          then (
            r,
            refused r.provider_id (" honoring Retry-After until " +s show_instant until)
                llm_rate_limited,
          )
          else (record r { retry_after = none }, by_state r)
    ]

pub record_success : CircuitBreaker → CircuitBreaker
record_success b = record b {
  consecutive_failures = 0;
  state = closed_circuit;
  opened_at = none;
  retry_after = none;
}

abbrev is_auth_failure : ErrorCode → Bool
is_auth_failure llm_auth_failed = true
is_auth_failure _ = false

abbrev pub is_provider_failure : ErrorCode → Bool
is_provider_failure llm_rate_limited = true
is_provider_failure llm_provider_unavailable = true
is_provider_failure _ = false

abbrev note_retry_after : ℕ → Option ℕ → CircuitBreaker → CircuitBreaker
note_retry_after now none b = b
note_retry_after now (some d) b = record b { retry_after = some (now + d) }

abbrev count_failure : ℕ → CircuitBreaker → CircuitBreaker
count_failure now b =
    let failures = sat_add_u32 b.consecutive_failures 1 in
    let counted = record b { consecutive_failures = failures } in
    if leb b.failure_threshold failures
    then record counted { state = open_circuit; opened_at = some now }
    else counted

pub record_failure : ℕ → ErrorCode → Option ℕ → CircuitBreaker → CircuitBreaker
record_failure now code retry_after b =
    if is_auth_failure code
    then record b { auth_locked = true; state = open_circuit; opened_at = some now }
    else let noted = note_retry_after now retry_after b in
      if is_provider_failure code then count_failure now noted else noted

pub reset : CircuitBreaker → CircuitBreaker
reset b = record b {
  auth_locked = false;
  consecutive_failures = 0;
  state = closed_circuit;
  opened_at = none;
  retry_after = none;
}

-- `CircuitLlmProvider::chat`: the call of the wrapped provider is `inner`, with the instant at
-- which it comes back. A `retry_after_ms` is read as nanoseconds.
chat {ℓ} :
    {Response : Type ℓ}
    → (ℕ → String)
    → ℕ
    → (Unit {0} → ℕ × VcResult Response)
    → CircuitBreaker
    → CircuitBreaker × VcResult Response
unfolding guard record_success record_failure
chat show_instant now inner b =
    let (guarded, verdict) = guard show_instant now b in
    elim verdict [
      | vc_err e ↦ (guarded, vc_err e)
      | vc_ok _ ↦
          let (later, answer) = inner tt in
          elim answer [
            | vc_ok response ↦ (record_success guarded, vc_ok response)
            | vc_err e ↦ (
              record_failure later e.code (Option.map (λ ms. ms * 1000000) e.retry_after_ms)
                  guarded,
              vc_err e,
            )
          ]
    ]
