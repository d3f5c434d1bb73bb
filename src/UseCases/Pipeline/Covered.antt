-- ===== src/UseCases/Pipeline/Covered.antt =====
-- crates/core/src/use_cases/llm_pipeline/service.rs: a text batch as a whole, from the provider's
-- answers to the accepted texts and the degraded cues.
use video_captioner_r.UseCases.Pipeline.{
  retries_exhausted, refused_items, panicked, no_json, error_code, code_of, cannot_fit, can_isolate,
  application, BatchInput, PipelineError,
}
use video_captioner_r.UseCases.Pipeline.Isolation.{Results, ids_of, rounds_of, execute_batch}
use video_captioner_r.UseCases.Pipeline.Checks.{Checked, crashes, keys, parse_json}
use video_captioner_r.UseCases.Pipeline.Requests.{
  Call, max_semantic_attempts, correction_translation_retries, Round, LlmMessage, check_content,
  request_text_batch, execute_text_batch, request_json,
}
use video_captioner_r.UseCases.Pipeline.Attempts.{request_json-Ends}
use video_captioner_r.UseCases.Pipeline.Answered.{known, Settled, isolate-Settled}
use video_captioner_r.Subtitle.Transcript.{LlmTextField}
use video_captioner_r.Prelude.Texts.{Text}
use video_captioner_r.Prelude.{
  Option-cases, false, length, some, true, ◌∙◌, ◌≤◌, ◌⊎◌, ◌+◌, ◌||◌, ◌∷◌, Bool, subst, ◌==◌, ◌≡◌,
  arith, List, Option, ℕ, String, [], inl, inr, has,
}
use video_captioner_r.UseCases.Pipeline.Calls.{Ends, Called, last_call, Reason}
use video_captioner_r.UseCases.{operation_cancelled}
use video_captioner_r.UseCases.Pipeline.Contents.{
  content-Correctable, content-keys, content-crashes,
}
use mathlib.Core.Option.{some-injective}
use video_captioner_r.Contracts.{llm_validation_failed, llm_invalid_response, llm_context_exceeded}

Called-last :
    {A : Type 0} (check : String → Checked A) (show : PipelineError → String) (world : ℕ → Round)
    (n : ℕ) (first : List LlmMessage) (calls : List Call) (c : Call)
    → Called check show world n first calls
    → last_call calls ≡ some c
    → (k : ℕ) × (sent : List LlmMessage) × ((world k).chat sent ≡ c)
Called-last check show world n first [] c h e = absurd (cc e)
Called-last check show world n first (d ∷ []) c h e = (n, first, h ∙ some-injective d c e)
Called-last check show world n first (d ∷ b ∷ calls) c (f, (next, g, h)) e =
    elim (Option-cases (last_call (b ∷ calls))) [
      | inl l ↦ (n, first, f ∙ some-injective d c (rw l at e))
      | inr (a, l) ↦ Called-last check show world (n + 1) next (b ∷ calls) c h (l ∙ rw l at e)
    ]

-- The errors that halving a batch may help.
abbrev pub Helps : PipelineError → Type 0
Helps panicked = ⊥
Helps (application a) =
    (code_of a ≡ llm_validation_failed)
    ⊎ (code_of a ≡ llm_invalid_response)
    ⊎ (code_of a ≡ llm_context_exceeded)
Helps _ = Unit

isolate-Helps : (e : PipelineError) → can_isolate e ≡ true → Helps e
unfolding can_isolate error_code
isolate-Helps panicked h = absurd (cc h)
isolate-Helps (application a) h = ground arith
isolate-Helps (cannot_fit id) h = tt
isolate-Helps no_json h = tt
isolate-Helps (refused_items why) h = tt
isolate-Helps retries_exhausted h = tt

helpless : (e : PipelineError) → can_isolate e ≡ false → ¬ (Helps e)
unfolding can_isolate error_code
helpless panicked h k = k
helpless (application a) h k = ground arith
helpless (cannot_fit id) h k = absurd (cc h)
helpless no_json h k = absurd (cc h)
helpless (refused_items why) h k = absurd (cc h)
helpless retries_exhausted h k = absurd (cc h)

-- Where the failure of a batch comes from: from outside, or from a response that crashes the parser.
abbrev pub Cause :
    {Value : Type 0} → (Text → Option Value) → (ℕ → ℕ → Round) → PipelineError → Type 0
Cause from_str world panicked =
    (t : ℕ) × (k : ℕ) × (sent : List LlmMessage) × (content : String) × ((world t k).chat sent
      ≡ inr content)
    × (parse_json from_str content ≡ crashes)
Cause from_str world (application a) =
    (t : ℕ) × (k : ℕ) × (((a ≡ operation_cancelled) × ((world t k).is_requested ≡ true))
      ⊎ ((a ≡ operation_cancelled) × ((world t k).is_requested_then ≡ true))
      ⊎ ((world t k).record_error ≡ some a)
      ⊎ ((sent : List LlmMessage) × ((world t k).chat sent ≡ inl a)))
Cause from_str world _ = ⊥

module _ {Value : Type 0} (from_str : Text → Option Value)
    (decode : Value → Option (List (ℕ × String))) (is_below : ℕ → ℕ → Bool) (field : LlmTextField)
    (show : PipelineError → String) (opening : BatchInput → List LlmMessage)
    (world : ℕ → ℕ → Round) where
  request_Ends :
      (t : ℕ) (b : BatchInput) (result : PipelineError ⊎ List (ℕ × String))
      → request_text_batch from_str decode is_below field show opening (world t) b ≡ result
      → let check = check_content from_str decode is_below field b.output in
        let attempts = max_semantic_attempts correction_translation_retries in
        (calls : List Call) × Called check show (world t) 0 (opening b) calls
        × Reason check (world t) attempts 0 0 0 calls result
  unfolding request_text_batch Ends
  request_Ends t b result e =
      let check = check_content from_str decode is_below field b.output in
      let attempts = max_semantic_attempts correction_translation_retries in
      let r = request_json show check (world t) (opening b) correction_translation_retries in
      let (l, m, called, reason) =
        request_json-Ends show check (content-Correctable is_below field b.output from_str decode)
          (world t) (opening b) correction_translation_retries in
      (r.0, called, subst (Reason check (world t) attempts 0 0 0 r.0) e reason)

  request_keys :
      (t : ℕ) (b : BatchInput) (items : List (ℕ × String)) (id : ℕ)
      → request_text_batch from_str decode is_below field show opening (world t) b ≡ inr items
      → has ◌==◌ id (keys items) ≡ has ◌==◌ id (ids_of b.output)
  unfolding Reason
  request_keys t b items id e =
      let (calls, called, (content, f, g)) = request_Ends t b (inr items) e in
      content-keys is_below field b.output from_str decode content items id g

  request-Cause :
      (t : ℕ) (b : BatchInput) (e : PipelineError)
      → request_text_batch from_str decode is_below field show opening (world t) b ≡ inl e
      → ¬ (Helps e)
      → Cause from_str world e
  unfolding Reason
  request-Cause t b panicked e n =
      let (calls, called, (content, f, g)) = request_Ends t b (inl panicked) e in
      let (k, sent, c) =
        Called-last (check_content from_str decode is_below field b.output) show (world t) 0
          (opening b) calls (inr content) called f in
      (t, k, sent, content, c, content-crashes is_below field b.output from_str decode content g)
  request-Cause t b (application a) e n =
      let (calls, called, reason) = request_Ends t b (inl (application a)) e in
      elim reason [
        | inl (k, at, x, y) ↦ (t, k, inl (x, y))
        | inr (inl (k, at, x, y)) ↦ (t, k, inr (inl (x, y)))
        | inr (inr (inl (k, at, x))) ↦ (t, k, inr (inr (inl x)))
        | inr (inr (inr (l, final))) ↦
            let (k, sent, c) =
              Called-last (check_content from_str decode is_below field b.output) show (world t) 0
                (opening b) calls (inl a) called l in
            (t, k, inr (inr (inr (sent, c))))
      ]
  request-Cause t b (cannot_fit id) e n = absurd (n tt)
  request-Cause t b no_json e n = absurd (n tt)
  request-Cause t b (refused_items why) e n = absurd (n tt)
  request-Cause t b retries_exhausted e n = absurd (n tt)

  -- A request for the cue alone is refused with an error that halving would help.
  abbrev pub RefusedAlone : ℕ → Type 0
  RefusedAlone id =
      (t : ℕ) × (b : BatchInput) × (error : PipelineError) × (length b.output ≤ 1)
      × (has ◌==◌ id (ids_of b.output) ≡ true)
      × (request_text_batch from_str decode is_below field show opening (world t) b ≡ inl error)
      × Helps error

  -- How a batch may end for one cue, of which it is `expected` whether it is known, and which was
  -- degraded before or not.
  pub BatchEnds : ℕ → (expected was : Bool) → PipelineError ⊎ Results → Type 0
  BatchEnds id expected was (inl e) = ¬ (Helps e) × Cause from_str world e
  BatchEnds id expected was (inr done) =
      (known id done ≡ expected) × ((has ◌==◌ id done.1 ≡ was) ⊎ RefusedAlone id)

  batch_ends :
      (id : ℕ) (expected was : Bool) (result : PipelineError ⊎ Results)
      → Settled
          (λ t b. request_text_batch from_str decode is_below field show opening (world t) b)
          id
          expected
          was
          result
      → BatchEnds id expected was result
  unfolding Settled BatchEnds
  batch_ends id expected was (inl e) (t, b, f, g) =
      (helpless e g, request-Cause t b e f (helpless e g))
  batch_ends id expected was (inr done) (k, inl same) = (k, inl same)
  batch_ends id expected was (inr done) (k, inr (t, b, error, l, h, f, g)) =
      (k, inr (t, b, error, l, h, f, isolate-Helps error g))

  -- Whatever the provider, the recorder and the cancellation do, a text batch ends with each of
  -- its cues having a text or being degraded, and no other cue besides those known before,
  -- where a cue becomes degraded only if a request for it alone is refused with an error that
  -- halving would help; or it fails with an error that halving does not help and that comes
  -- from the provider, the recorder or a cancellation; or it panics on a response on which the
  -- JSON parsing panics.
  pub text_batch-BatchEnds :
      (batch : BatchInput) (done : Results) (id : ℕ)
      → BatchEnds id
          (known id done || has ◌==◌ id (ids_of batch.output))
          (has ◌==◌ id done.1)
          (execute_text_batch from_str decode is_below field show opening world batch done)
  unfolding execute_text_batch execute_batch
  text_batch-BatchEnds batch done id =
      let result =
        execute_text_batch from_str decode is_below field show opening world batch done in
      batch_ends id (known id done || has ◌==◌ id (ids_of batch.output)) (has ◌==◌ id done.1) result
        (subst
          (λ x.
            Settled
              (λ t b. request_text_batch from_str decode is_below field show opening (world t) b) id
              x (has ◌==◌ id done.1) result)
          (ground arith)
          (isolate-Settled
            (λ t b. request_text_batch from_str decode is_below field show opening (world t) b) id
            (λ t b items e. request_keys t b items id e) (rounds_of batch) 0 (batch ∷ []) done
            (omega arith)))
