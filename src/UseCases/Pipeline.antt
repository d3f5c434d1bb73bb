-- ===== src/UseCases/Pipeline.antt =====
-- crates/core/src/use_cases/llm_pipeline/types.rs, retry.rs: the data of the LLM pipeline, its errors
-- and their classes.
pub mod Packing
pub mod Coverage
pub mod Isolation
pub mod Checks
pub mod Similarity
pub mod Judged
pub mod Requests
pub mod Calls
pub mod Attempts
pub mod Contents
pub mod Covered
pub mod Answered
mod Examples
use video_captioner_r.Contracts.{
  cancelled, VcError, ErrorCode, llm_validation_failed, llm_invalid_response, llm_context_exceeded,
}
use video_captioner_r.UseCases.{
  ApplicationError, domain, adapter, invalid, operation_cancelled, state_persistence,
}
use video_captioner_r.Prelude.{Bool, List, Option, none, some, ℕ, String, true, false}

pub record CueInput : Type 0 where
  pub id : ℕ
  pub text : String

pub record BatchInput : Type 0 where
  pub index : ℕ
  pub output : List CueInput
  pub context : List CueInput

-- What the checks of an answer find.
pub data Violation : Type 0 where
  response_shape : Violation
  duplicate_id : ℕ → Violation
  keys_mismatch : (expected actual : List ℕ) → Violation
  empty_text : ℕ → Violation
  low_similarity : ℕ → Violation
  unchanged_residue : ℕ → Violation

-- The errors of the pipeline. All but the first two are `ApplicationError::Adapter`s of its own
-- making; `panicked` is no error but a panic, which unwinds through all of the code.
pub data PipelineError : Type 0 where
  panicked : PipelineError
  application : ApplicationError String → PipelineError
  cannot_fit : ℕ → PipelineError
  no_json : PipelineError
  refused_items : Violation → PipelineError
  retries_exhausted : PipelineError

abbrev pub code_of : ApplicationError String → ErrorCode
code_of (domain e) = ErrorCode.invalid_argument
code_of (adapter e) = e.code
code_of operation_cancelled = ErrorCode.cancelled
code_of (state_persistence primary state) = primary.code
code_of (invalid message) = ErrorCode.invalid_argument

unfoldable pub error_code : PipelineError → Option ErrorCode
error_code panicked = none
error_code (application e) = some (code_of e)
error_code (cannot_fit id) = some llm_context_exceeded
error_code no_json = some llm_invalid_response
error_code (refused_items why) = some llm_validation_failed
error_code retries_exhausted = some llm_validation_failed

abbrev isolates : ErrorCode → Bool
isolates llm_validation_failed = true
isolates llm_invalid_response = true
isolates llm_context_exceeded = true
isolates _ = false

unfoldable pub can_isolate : PipelineError → Bool
unfolding error_code
can_isolate e = elim (error_code e) [ none ↦ false | some code ↦ isolates code ]
