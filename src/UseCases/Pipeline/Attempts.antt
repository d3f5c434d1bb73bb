-- ===== src/UseCases/Pipeline/Attempts.antt =====
-- crates/core/src/use_cases/llm_pipeline/service.rs: how the requests for a batch end.
use video_captioner_r.UseCases.{ApplicationError}
use video_captioner_r.UseCases.Pipeline.{PipelineError, code_of}
use video_captioner_r.UseCases.Pipeline.Checks.{Checked, refuses}
use video_captioner_r.UseCases.Pipeline.Judged.{Correctable}
use video_captioner_r.UseCases.Pipeline.Requests.{
  repair_user_message, after, Call, is_final, Round, LlmMessage, request_loop, request_json,
  max_semantic_attempts, max_transport_attempts, classify_transport_error, with_repair,
}
use video_captioner_r.Prelude.{
  [], ◌++◌, ◌∷◌, false, arith, refl, suc, zero, ◌+◌, ◌<◌, ◌≡◌, ◌≤◌, ◌⊎◌, List, Option, none, some,
  ℕ, String, inl, inr, Sum-cases, Option-cases, Bool-cases, leb, ltb,
}
use video_captioner_r.UseCases.Pipeline.Calls.{
  Ends, Final, Reason, onward, Reason-later, Reason-refused, Final-of, not-Final, Checked-cases,
}

module _ {A : Type 0} (show : PipelineError → String) (check : String → Checked A)
    (corrects : (content : String) (why : PipelineError)
      → check content ≡ refuses why
      → Correctable why)
    (attempts : ℕ) (world : ℕ → Round) where
  again_failed :
      (n s t : ℕ) (error : ApplicationError String) (sent : List LlmMessage)
      (later : List Call × (PipelineError ⊎ A))
      → (world n).chat sent ≡ inl error
      → ¬ (Final (code_of error))
      → Ends check show world attempts (n + 1) s (t + 1) sent later
      → Ends check show world attempts n s t sent (after show check attempts (inl error) later)
  unfolding Ends
  again_failed n s t error sent (calls, result) f g (a, b, c, r) = (
    a,
    omega arith,
    onward check show world n sent sent (inl error) calls f (g, refl) c,
    Reason-later check world attempts n s t s (t + 1) (inl error) calls result refl (omega arith) r,
  )

  again_refused :
      (n s t : ℕ) (content : String) (why : PipelineError) (sent : List LlmMessage)
      (later : List Call × (PipelineError ⊎ A))
      → (world n).chat sent ≡ inr content
      → check content ≡ refuses why
      → Ends check show world attempts
          (n + 1)
          (s + 1)
          t
          (sent ++ repair_user_message (show why) ∷ [])
          later
      → Ends check show world attempts n s t sent (after show check attempts (inr content) later)
  unfolding Ends
  again_refused n s t content why sent (calls, result) f g (a, b, c, r) = (
    omega arith,
    b,
    onward check show world n sent (sent ++ repair_user_message (show why) ∷ []) (inr content) calls
        f (why, g, refl) c,
    Reason-later check world attempts n s t (s + 1) t (inr content) calls result (omega arith) refl
        r,
  )

  loop-Ends :
      (fuel n semantic transport : ℕ) (messages : List LlmMessage)
      (violation : Option PipelineError)
      → n ≡ semantic + transport
      → semantic < attempts
      → transport < max_transport_attempts
      → attempts + 2 ≤ fuel + n
      → Ends check show world attempts n semantic transport
          (with_repair show messages violation)
          (request_loop show check attempts world fuel n semantic transport messages violation)
  unfolding request_loop Ends Reason
  loop-Ends zero n s t messages violation hn hs ht h = absurd (omega arith)
  loop-Ends (suc fuel) n s t messages violation hn hs ht h =
      let round = world n in
      let sent = with_repair show messages violation in
      let begun : leb attempts s ≡ false = ground arith in
      elim (Bool-cases round.is_requested) [
        | inl e ↦ rw (e, request_loop) (omega arith, omega arith, tt, inl (n, omega arith, refl, e))
        | inr e ↦ elim (Sum-cases (round.chat sent)) [
          | inl (error, f) ↦ elim (Option-cases round.record_error) [
            | inr (why, g) ↦
                rw (e, begun, f, g, request_loop)
                  (omega arith, omega arith, f, inr (inr (inl (n, omega arith, g))))
            | inl g ↦ elim (Bool-cases (is_final (classify_transport_error (code_of error)))) [
              | inl k ↦
                  rw (e, begun, f, g, k, request_loop)
                    (
                      omega arith,
                      omega arith,
                      f,
                      inr (inr (inr (refl, inl (Final-of (code_of error) k)))),
                    )
              | inr k ↦ elim (Bool-cases (leb max_transport_attempts (t + 1))) [
                | inl l ↦
                    rw (e, begun, f, g, k, l, request_loop)
                      (omega arith, omega arith, f, inr (inr (inr (refl, inr (ground arith)))))
                | inr l ↦
                    rw (e, begun, f, g, k, l, request_loop)
                      (again_failed n s t error sent
                        (request_loop show check attempts world fuel (n + 1) s (t + 1) sent none) f
                        (not-Final (code_of error) k)
                        (loop-Ends fuel (n + 1) s (t + 1) sent none (omega arith) hs (ground arith)
                          (omega arith)))
              ]
            ]
          ]
          | inr (content, f) ↦ elim (Bool-cases round.is_requested_then) [
            | inl g ↦
                rw (e, begun, f, g, request_loop)
                  (omega arith, omega arith, f, inr (inl (n, omega arith, refl, g)))
            | inr g ↦ elim (Option-cases round.record_error) [
              | inr (why, k) ↦
                  rw (e, begun, f, g, k, request_loop)
                    (omega arith, omega arith, f, inr (inr (inl (n, omega arith, k))))
              | inl k ↦ elim (Checked-cases (check content)) [
                | inl c ↦
                    rw (e, begun, f, g, k, c, request_loop)
                      (omega arith, omega arith, f, (content, refl, c))
                | inr (inr (a, c)) ↦
                    rw (e, begun, f, g, k, c, request_loop)
                      (omega arith, omega arith, f, (content, refl, c))
                | inr (inl (why, c)) ↦ elim (Bool-cases (ltb (s + 1) attempts)) [
                  | inr l ↦
                      rw (e, begun, f, g, k, c, l, request_loop)
                        (
                          omega arith,
                          omega arith,
                          f,
                          Reason-refused check world attempts n s t content why
                              (corrects content why c) (ground arith) c,
                        )
                  | inl l ↦
                      rw (e, begun, f, g, k, c, l, request_loop)
                        (again_refused n s t content why sent
                          (request_loop show check attempts world fuel (n + 1) (s + 1) t sent
                            (some why))
                          f c
                          (loop-Ends fuel (n + 1) (s + 1) t sent (some why) (omega arith)
                            (ground arith) ht (omega arith)))
                ]
              ]
            ]
          ]
        ]
      ]

module _ {A : Type 0} (show : PipelineError → String) (check : String → Checked A)
    (corrects : (content : String) (why : PipelineError)
      → check content ≡ refuses why
      → Correctable why) where
  -- The requests for a batch end: at most as many are answered as attempts are allowed and at
  -- most three fail; another one follows only a failure that is not final, with the same
  -- messages, or a refused answer, with a message more that asks to repair what was refused;
  -- and the outcome is what the check accepts of the last answer, its panic on it, its refusal
  -- when every attempt has been answered, a cancellation, an error of the recorder, or a last
  -- failure that is final or the third. The error behind the loop is never the outcome.
  pub request_json-Ends :
      (world : ℕ → Round) (messages : List LlmMessage) (retries : ℕ)
      → Ends check show world
          (max_semantic_attempts retries)
          0
          0
          0
          messages
          (request_json show check world messages retries)
  unfolding request_json
  request_json-Ends world messages retries =
      let attempts = max_semantic_attempts retries in
      loop-Ends show check corrects attempts world (attempts + 2) 0 0 0 messages none refl
        (omega arith) (omega arith) (omega arith)
