-- ===== src/Llm/Circuit/Lock.antt =====
-- The authentication lock of crates/llm/src/circuit.rs.
use video_captioner_r.Contracts.{VcResult, vc_ok, vc_err, ErrorCode, llm_auth_failed}
use video_captioner_r.Llm.Circuit.{
  CircuitBreaker, guard, record_success, record_failure, state_now, reset, closed_circuit,
}
use video_captioner_r.Llm.Circuit.Machine.{
  Command, ask_state, ask_guard, succeeded, failed, reset_all, step, run,
}
use video_captioner_r.Prelude.{
  Bool, Option, String, [], any, arith, false, none, refl, some, true, ℕ, ◌∷◌, ◌≡◌, List,
}

abbrev is_reset : Command → Bool
is_reset reset_all = true
is_reset _ = false

-- The code that a guard refuses with.
abbrev pub refusal : VcResult (Unit {0}) → Option ErrorCode
refusal (vc_ok _) = none
refusal (vc_err e) = some e.code

step-locked :
    (c : Command) (b : CircuitBreaker)
    → is_reset c ≡ false
    → b.auth_locked ≡ true
    → (step c b).auth_locked ≡ true
unfolding step guard record_success record_failure state_now
step-locked (ask_state now) b h l = ground arith
step-locked (ask_guard now) b h l = ground arith
step-locked succeeded b h l = ground arith
step-locked (failed now code retry_after) b h l = ground arith
step-locked reset_all b h l = ground arith

run-locked :
    (cs : List Command) (b : CircuitBreaker)
    → any is_reset cs ≡ false
    → b.auth_locked ≡ true
    → (run cs b).auth_locked ≡ true
unfolding run
run-locked [] b h l = l
run-locked (c ∷ cs) b h l =
    run-locked cs (step c b) (ground arith) (step-locked c b (ground arith) l)

guard_of_locked :
    (show_instant : ℕ → String) (now : ℕ) (b : CircuitBreaker)
    → b.auth_locked ≡ true
    → refusal (guard show_instant now b).1 ≡ some llm_auth_failed
unfolding guard
guard_of_locked show_instant now b l = ground arith

-- After an authentication failure every guard refuses with that error, at any time and whatever
-- other calls come between, until a reset.
pub auth_lock_holds :
    (show_instant : ℕ → String) (failed_at now : ℕ) (retry_after : Option ℕ) (cs : List Command)
    (b : CircuitBreaker)
    → any is_reset cs ≡ false
    → refusal
        (guard show_instant now (run cs (record_failure failed_at llm_auth_failed retry_after b))).1
      ≡ some llm_auth_failed
auth_lock_holds show_instant failed_at now retry_after cs b h = guard_of_locked show_instant now _ (
    run-locked cs (record_failure failed_at llm_auth_failed retry_after b) h
      (unfold record_failure in refl))

-- A reset ends the lock: the next guard lets the request through.
reset_unlocks :
    (show_instant : ℕ → String) (now : ℕ) (b : CircuitBreaker)
    → (guard show_instant now (reset b)).1 ≡ vc_ok tt
unfolding guard reset
reset_unlocks show_instant now b = ground arith

-- A success recorded on a locked breaker makes it report the closed state, though its guard
-- still refuses with the authentication error.
pub success_of_locked :
    (show_instant : ℕ → String) (asked_at now : ℕ) (b : CircuitBreaker)
    → b.auth_locked ≡ true
    → ((state_now asked_at (record_success b)).1 ≡ closed_circuit)
      × (refusal (guard show_instant now (record_success b)).1 ≡ some llm_auth_failed)
unfolding guard record_success state_now
success_of_locked show_instant asked_at now b l = (ground arith, ground arith)
