-- ===== src/Llm/Circuit/Examples.antt =====
-- The theorems of crates/llm/src/circuit.rs at concrete breakers.
use video_captioner_r.Contracts.{llm_rate_limited, llm_provider_unavailable, vc_ok}
use video_captioner_r.Llm.Circuit.{new, guard, refresh_locked, record_failure}
use video_captioner_r.Llm.Circuit.Machine.{Command, ask_guard, failed, step, run}
use video_captioner_r.Llm.Circuit.Lock.{refusal}
use video_captioner_r.Llm.Circuit.Trip.{opens_at_threshold, recovers}
use video_captioner_r.Prelude.{List, String, [], arith, is_some, none, true, ℕ, ◌∷◌, ◌≡◌, refl}

abbrev show_instant : ℕ → String
show_instant now = "later"

abbrev busy : List Command
busy = ask_guard 5 ∷ failed 6 llm_rate_limited none ∷ failed 7 llm_provider_unavailable none ∷ []

opens_at_threshold_example :
    is_some (
      refusal
        (guard show_instant 9
          (record_failure 8 llm_provider_unavailable none (run busy (new "p")))).1)
    ≡ true
opens_at_threshold_example =
    opens_at_threshold show_instant 8 9 llm_provider_unavailable none busy (new "p") refl refl
      (omega arith) (omega arith) (omega arith) (omega arith)

abbrev tripping : List Command
tripping = failed 8 llm_provider_unavailable none ∷ busy

recovers_example : (guard show_instant 60000000007 (run tripping (new "p"))).1 ≡ vc_ok tt
unfolding run step guard refresh_locked record_failure
recovers_example =
    recovers show_instant "p" 60000000007 tripping refl (λ t e. ground arith) (λ t e. ground arith)
