-- ===== src/Llm/Circuit/Trip.antt =====
-- When the circuit of crates/llm/src/circuit.rs opens, and when it lets requests through again.
use video_captioner_r.Contracts.{vc_ok, ErrorCode, llm_provider_unavailable}
use video_captioner_r.Llm.Circuit.Lock.{refusal}
use video_captioner_r.Llm.Circuit.{
  CircuitBreaker, CircuitState, guard, record_success, record_failure, state_now, reset, new,
  is_provider_failure, refresh_locked, closed_circuit, is_open,
}
use video_captioner_r.Llm.Circuit.Machine.{
  Command, ask_state, ask_guard, succeeded, failed, reset_all, step, run,
}
use video_captioner_r.Prelude.{
  Option, Option-cases, any, inl, inr, min, u32_max, ◌<◌, Bool, String, [], arith, false,
  if◌then◌else◌, is_some, none, some, suc, true, ℕ, ◌+◌, ◌∷◌, ◌≡◌, ◌≤◌, List,
}

abbrev is_closed : CircuitState → Bool
is_closed closed_circuit = true
is_closed _ = false

-- The counts are `u32`. An open circuit knows since when, and a circuit that is not closed and not locked has counted as
-- many failures as its threshold.
pub record IsConsistent (b : CircuitBreaker) : Type 0 where
  pub open_since : is_open b.state ≡ true → is_some b.opened_at ≡ true
  pub fits : b.consecutive_failures ≤ u32_max
  pub counted :
      b.auth_locked ≡ false
      → is_closed b.state ≡ false
      → b.failure_threshold ≤ b.consecutive_failures
  pub threshold : b.failure_threshold ≤ u32_max

new-IsConsistent : (provider_id : String) → IsConsistent (new provider_id)
new-IsConsistent provider_id = record {
  open_since = ground arith;
  fits = ground arith;
  counted = ground arith;
  threshold = ground arith;
}

step-IsConsistent : (c : Command) (b : CircuitBreaker) → IsConsistent b → IsConsistent (step c b)
unfolding step guard record_success record_failure state_now reset refresh_locked
step-IsConsistent (ask_state now) b v = record {
  open_since = ground arith;
  fits = ground arith;
  counted = ground arith;
  threshold = ground arith;
}
step-IsConsistent (ask_guard now) b v = record {
  open_since = ground arith;
  fits = ground arith;
  counted = ground arith;
  threshold = ground arith;
}
step-IsConsistent succeeded b v = record {
  open_since = ground arith;
  fits = ground arith;
  counted = ground arith;
  threshold = ground arith;
}
step-IsConsistent (failed now code none) b v = record {
  open_since = ground arith;
  fits = ground arith;
  counted = ground arith;
  threshold = ground arith;
}
step-IsConsistent (failed now code (some d)) b v = record {
  open_since = ground arith;
  fits = ground arith;
  counted = ground arith;
  threshold = ground arith;
}
step-IsConsistent reset_all b v = record {
  open_since = ground arith;
  fits = ground arith;
  counted = ground arith;
  threshold = ground arith;
}

run-IsConsistent :
    (cs : List Command) (b : CircuitBreaker) → IsConsistent b → IsConsistent (run cs b)
unfolding run
run-IsConsistent [] b v = v
run-IsConsistent (c ∷ cs) b v = run-IsConsistent cs (step c b) (step-IsConsistent c b v)

-- How many failures of the provider the calls record.
abbrev pub provider_failures : List Command → ℕ
provider_failures [] = 0
provider_failures (failed now code retry_after ∷ cs) =
    let rest = provider_failures cs in if is_provider_failure code then suc rest else rest
provider_failures (ask_state now ∷ cs) = provider_failures cs
provider_failures (ask_guard now ∷ cs) = provider_failures cs
provider_failures (succeeded ∷ cs) = provider_failures cs
provider_failures (reset_all ∷ cs) = provider_failures cs

run-counts :
    (cs : List Command) (b : CircuitBreaker)
    → ((run cs b).consecutive_failures ≤ b.consecutive_failures + provider_failures cs)
      × ((run cs b).failure_threshold ≡ b.failure_threshold)
unfolding run step guard record_success record_failure state_now reset refresh_locked
run-counts [] b = ground arith
run-counts (failed now code none ∷ cs) b =
    ground (arith, run-counts cs (step (failed now code none) b))
run-counts (failed now code (some d) ∷ cs) b =
    ground (arith, run-counts cs (step (failed now code (some d)) b))
run-counts (ask_state now ∷ cs) b = ground (arith, run-counts cs (step (ask_state now) b))
run-counts (ask_guard now ∷ cs) b = ground (arith, run-counts cs (step (ask_guard now) b))
run-counts (succeeded ∷ cs) b = ground (arith, run-counts cs (step succeeded b))
run-counts (reset_all ∷ cs) b = ground (arith, run-counts cs (step reset_all b))

-- A new breaker refuses as unavailable only after at least three failures of the provider.
pub trip_needs_failures :
    (show_instant : ℕ → String) (provider_id : String) (now : ℕ) (cs : List Command)
    → refusal (guard show_instant now (run cs (new provider_id))).1 ≡ some llm_provider_unavailable
    → 3 ≤ provider_failures cs
unfolding guard refresh_locked
trip_needs_failures show_instant provider_id now cs h =
    let v = run-IsConsistent cs (new provider_id) (new-IsConsistent provider_id) in
    ground (arith, run-counts cs (new provider_id), v.counted)

-- Whether a call starts a new count.
abbrev restarts_count : Command → Bool
restarts_count succeeded = true
restarts_count reset_all = true
restarts_count _ = false

run-accumulates :
    (cs : List Command) (b : CircuitBreaker)
    → any restarts_count cs ≡ false
    → (min (b.consecutive_failures + provider_failures cs) u32_max
        ≤ (run cs b).consecutive_failures)
      × ((run cs b).open_for ≡ b.open_for)
unfolding run step guard record_success record_failure state_now reset refresh_locked
run-accumulates [] b h = ground arith
run-accumulates (failed now code none ∷ cs) b h =
    ground (arith, run-accumulates cs (step (failed now code none) b))
run-accumulates (failed now code (some d) ∷ cs) b h =
    ground (arith, run-accumulates cs (step (failed now code (some d)) b))
run-accumulates (ask_state now ∷ cs) b h =
    ground (arith, run-accumulates cs (step (ask_state now) b))
run-accumulates (ask_guard now ∷ cs) b h =
    ground (arith, run-accumulates cs (step (ask_guard now) b))
run-accumulates (succeeded ∷ cs) b h = ground arith
run-accumulates (reset_all ∷ cs) b h = ground arith

-- When a failure of the provider makes as many as the threshold, with no success or reset
-- since, the guard refuses until the circuit has been open for its duration, if the clock does
-- not run backwards.
pub opens_at_threshold :
    (show_instant : ℕ → String) (failed_at now : ℕ) (code : ErrorCode) (retry_after : Option ℕ)
    (cs : List Command) (b : CircuitBreaker)
    → any restarts_count cs ≡ false
    → is_provider_failure code ≡ true
    → b.failure_threshold ≤ provider_failures cs + 1
    → b.failure_threshold ≤ u32_max
    → failed_at ≤ now
    → now < failed_at + b.open_for
    → is_some
        (refusal (guard show_instant now (record_failure failed_at code retry_after (run cs b))).1)
      ≡ true
unfolding guard refresh_locked record_failure
opens_at_threshold show_instant failed_at now code none cs b h p t u m n =
    ground (arith, run-accumulates cs b h, run-counts cs b)
opens_at_threshold show_instant failed_at now code (some d) cs b h p t u m n =
    ground (arith, run-accumulates cs b h, run-counts cs b)

-- A breaker that is not locked lets a request through once the circuit has been open for its
-- duration and the Retry-After is past, whatever calls came before.
pub recovers :
    (show_instant : ℕ → String) (provider_id : String) (now : ℕ) (cs : List Command)
    → let b = run cs (new provider_id) in
      b.auth_locked ≡ false
      → ((opened : ℕ) → b.opened_at ≡ some opened → opened + b.open_for ≤ now)
      → ((until : ℕ) → b.retry_after ≡ some until → until ≤ now)
      → (guard show_instant now b).1 ≡ vc_ok tt
unfolding guard refresh_locked
recovers show_instant provider_id now cs l o r =
    let b = run cs (new provider_id) in
    let v = run-IsConsistent cs (new provider_id) (new-IsConsistent provider_id) in
    elim (Option-cases b.opened_at) [
      | inl e ↦ elim (Option-cases b.retry_after) [
        | inl f ↦ ground (arith, v.open_since)
        | inr (u, f) ↦ ground (arith, v.open_since, r u f)
      ]
      | inr (t, e) ↦ elim (Option-cases b.retry_after) [
        | inl f ↦ ground (arith, o t e)
        | inr (u, f) ↦ ground (arith, o t e, r u f)
      ]
    ]
