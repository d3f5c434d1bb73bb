-- ===== src/Contracts/Codes.antt =====
-- The error codes of crates/contracts/src/error.rs read back from their texts, and against the retry
-- policy of crates/domain/src/workflow/work_unit.rs.
use video_captioner_r.Contracts.{
  worker_timeout, worker_crashed, llm_rate_limited, llm_provider_unavailable, llm_invalid_response,
  llm_context_exceeded, asr_oom, recoverable, ErrorCode, as_str, parse, default_category,
}
use video_captioner_r.Workflow.WorkUnit.{is_deterministic_work_unit_error}
-- Every code is read back from its own text.
use video_captioner_r.Prelude.{ap, false, refl, some, sym, ◌∙◌, ◌≡◌}

-- Parsing the text of an error code gives the code back.
pub parse-as_str : (c : ErrorCode) → parse (as_str c) ≡ some c
unfolding parse as_str
parse-as_str ErrorCode.invalid_argument = refl
parse-as_str _ = refl

-- The texts of two codes differ.
as_str-injective : (c d : ErrorCode) → as_str c ≡ as_str d → c ≡ d
as_str-injective c d h = cc (sym (parse-as_str c) ∙ (ap parse h ∙ parse-as_str d))

-- No code whose category is recoverable is on the list of codes that a work unit must not retry
-- automatically.
pub recoverable_not_deterministic :
    (c : ErrorCode)
    → default_category c ≡ recoverable
    → is_deterministic_work_unit_error (as_str c) ≡ false
unfolding as_str default_category is_deterministic_work_unit_error
recoverable_not_deterministic worker_timeout h = refl
recoverable_not_deterministic worker_crashed h = refl
recoverable_not_deterministic asr_oom h = refl
recoverable_not_deterministic llm_rate_limited h = refl
recoverable_not_deterministic llm_provider_unavailable h = refl
recoverable_not_deterministic llm_context_exceeded h = refl
recoverable_not_deterministic llm_invalid_response h = refl
recoverable_not_deterministic _ h = cc
