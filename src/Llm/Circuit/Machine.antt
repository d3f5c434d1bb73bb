-- ===== src/Llm/Circuit/Machine.antt =====
-- The calls that the owners of a circuit breaker of crates/llm/src/circuit.rs make, in any order.
use video_captioner_r.Contracts.{ErrorCode}
use video_captioner_r.Llm.Circuit.{
  CircuitBreaker, guard, record_success, record_failure, reset, state_now,
}
use video_captioner_r.Prelude.{Option, [], ℕ, ◌∷◌, List}

-- Each call with the instant at which it is made.
pub data Command : Type 0 where
  ask_state : ℕ → Command
  ask_guard : ℕ → Command
  succeeded : Command
  failed : ℕ → ErrorCode → Option ℕ → Command
  reset_all : Command

unfoldable pub step : Command → CircuitBreaker → CircuitBreaker
unfolding state_now guard record_success record_failure reset
step (ask_state now) b = (state_now now b).0
step (ask_guard now) b = (guard (λ _. "") now b).0
step succeeded b = record_success b
step (failed now code retry_after) b = record_failure now code retry_after b
step reset_all b = reset b

unfoldable pub run : List Command → CircuitBreaker → CircuitBreaker
unfolding step
run [] b = b
run (c ∷ cs) b = run cs (step c b)
