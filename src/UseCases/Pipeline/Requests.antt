-- ===== src/UseCases/Pipeline/Requests.antt =====
-- crates/core/src/use_cases/llm_pipeline/service.rs, agent.rs, durable.rs: the requests for one batch.
-- A round of the loop asks the provider once; `Round` is what it meets outside. The file of attempts,
-- whose errors are ignored, the metadata and the sleep before a repeated request are left out.
use video_captioner_r.Contracts.{
  cancelled, ErrorCode, llm_auth_failed, llm_model_not_found, llm_rate_limited,
}
use video_captioner_r.UseCases.{ApplicationError, operation_cancelled}
use video_captioner_r.UseCases.Pipeline.{
  CueInput, BatchInput, PipelineError, panicked, application, retries_exhausted, code_of,
}
use video_captioner_r.UseCases.Pipeline.Isolation.{Results, execute_batch}
use video_captioner_r.UseCases.Pipeline.Checks.{
  Checked, crashes, refuses, accepts, check_answer, parse_json,
}
use video_captioner_r.Subtitle.Transcript.{LlmTextField}
use video_captioner_r.Prelude.Texts.{Text}
use video_captioner_r.Prelude.{
  false, if◌then◌else◌, leb, ltb, sat_add_u32, suc, true, zero, ◌++◌, ◌+s◌, ◌+◌, ◌||◌, ◌∷◌, ◌⊎◌,
  Bool, List, Option, none, some, ℕ, String, [], inl, inr,
}

pub data LlmRole : Type 0 where
  system user assistant : LlmRole

pub record LlmMessage : Type 0 where
  pub role : LlmRole
  pub content : String

pub data TransportRetryClass : Type 0 where
  fail_fast rate_limited transient class_cancelled : TransportRetryClass

unfoldable pub classify_transport_error : ErrorCode → TransportRetryClass
classify_transport_error llm_auth_failed = fail_fast
classify_transport_error llm_model_not_found = fail_fast
classify_transport_error llm_rate_limited = rate_limited
classify_transport_error cancelled = class_cancelled
classify_transport_error _ = transient

abbrev pub is_final : TransportRetryClass → Bool
is_final fail_fast = true
is_final class_cancelled = true
is_final rate_limited = false
is_final transient = false

abbrev pub repair_user_message : String → LlmMessage
repair_user_message violation = record {
  role = user;
  content =
      "The previous response was rejected. Fix this violation and return only the requested JSON: "
      +s violation;
}

abbrev pub max_semantic_attempts : ℕ → ℕ
max_semantic_attempts retries = sat_add_u32 retries 1

abbrev pub max_transport_attempts : ℕ
max_transport_attempts = 3

-- The token before the request and behind it, the answer of the provider, and that of the recorder.
pub record Round : Type 0 where
  pub is_requested : Bool
  pub chat : List LlmMessage → ApplicationError String ⊎ String
  pub is_requested_then : Bool
  pub record_error : Option (ApplicationError String)

-- The messages with the repair of the last violation, if there is one.
abbrev pub with_repair :
    (PipelineError → String) → List LlmMessage → Option PipelineError → List LlmMessage
with_repair show messages none = messages
with_repair show messages (some why) = messages ++ repair_user_message (show why) ∷ []

-- A call of the provider, by its answer: an error of the transport or the content of a response.
abbrev pub Call : Type 0
Call = ApplicationError String ⊎ String

module _ {A : Type 0} (show : PipelineError → String) (check : String → Checked A)
    (max_attempts : ℕ) where
  abbrev pub after : Call → List Call × (PipelineError ⊎ A) → List Call × (PipelineError ⊎ A)
  after call (calls, result) = (call ∷ calls, result)

  -- What the provider is asked and answers, and the result.
  unfoldable pub request_loop :
      (ℕ → Round)
      → (fuel n semantic transport : ℕ) → List LlmMessage
      → Option PipelineError
      → List Call × (PipelineError ⊎ A)
  unfolding classify_transport_error
  request_loop world zero n semantic transport messages violation = ([], inl retries_exhausted)
  request_loop world (suc fuel) n semantic transport messages violation =
      let round = world n in
      let sent = with_repair show messages violation in
      let repeated = request_loop world fuel (n + 1) semantic (transport + 1) sent none in
      let repaired = λ (why : PipelineError).
        request_loop world fuel (n + 1) (semantic + 1) transport sent (some why) in
      if round.is_requested
      then ([], inl (application operation_cancelled))
      else if leb max_attempts semantic
      then ([], inl retries_exhausted)
      else elim (round.chat sent) [
        | inl error ↦ elim round.record_error [
          | some e ↦ (inl error ∷ [], inl (application e))
          | none ↦
              if is_final (classify_transport_error (code_of error))
                || leb max_transport_attempts (transport + 1)
              then (inl error ∷ [], inl (application error))
              else after (inl error) repeated
        ]
        | inr content ↦
            if round.is_requested_then
            then (inr content ∷ [], inl (application operation_cancelled))
            else elim round.record_error [
              | some e ↦ (inr content ∷ [], inl (application e))
              | none ↦ elim (check content) [
                | crashes ↦ (inr content ∷ [], inl panicked)
                | accepts value ↦ (inr content ∷ [], inr value)
                | refuses why ↦
                    if ltb (semantic + 1) max_attempts
                    then after (inr content) (repaired why)
                    else (inr content ∷ [], inl why)
              ]
            ]
      ]

module _ {A : Type 0} (show : PipelineError → String) (check : String → Checked A) where
  -- Every round but the last is one more attempt of one of the two kinds.
  unfoldable pub request_json : (ℕ → Round) → List LlmMessage → ℕ → List Call × (PipelineError ⊎ A)
  unfolding request_loop
  request_json world messages retries =
      let attempts = max_semantic_attempts retries in
      request_loop show check attempts world (attempts + 2) 0 0 0 messages none

abbrev pub correction_translation_retries : ℕ
correction_translation_retries = 3

module _ {Value : Type 0} (from_str : Text → Option Value)
    (decode : Value → Option (List (ℕ × String))) (is_below : ℕ → ℕ → Bool)
    (field : LlmTextField) where
  unfoldable pub check_content : List CueInput → String → Checked (List (ℕ × String))
  unfolding parse_json check_answer
  check_content cues content = elim (parse_json from_str content) [
    | crashes ↦ crashes
    | refuses why ↦ refuses why
    | accepts value ↦ check_answer is_below field cues (decode value)
  ]

  -- `opening` makes the two first messages of a batch.
  module _ (show : PipelineError → String) (opening : BatchInput → List LlmMessage) where
    unfoldable pub request_text_batch : (ℕ → Round) → BatchInput → PipelineError ⊎ List (ℕ × String)
    unfolding request_json check_content
    request_text_batch world batch =
        (request_json show (check_content batch.output) world (opening batch)
          correction_translation_retries).1

    -- `world t` is what the t-th request meets.
    unfoldable pub execute_text_batch :
        (ℕ → ℕ → Round) → BatchInput → Results → PipelineError ⊎ Results
    unfolding request_text_batch execute_batch
    execute_text_batch world batch done =
        execute_batch (λ t b. request_text_batch (world t) b) 0 batch done
