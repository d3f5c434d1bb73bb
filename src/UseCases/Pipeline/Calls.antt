-- ===== src/UseCases/Pipeline/Calls.antt =====
-- crates/core/src/use_cases/llm_pipeline/service.rs: what the requests for a batch may come to.
use video_captioner_r.Contracts.{ErrorCode, llm_auth_failed, llm_model_not_found}
use video_captioner_r.UseCases.{operation_cancelled}
use video_captioner_r.UseCases.Pipeline.{
  PipelineError, panicked, application, cannot_fit, no_json, refused_items, retries_exhausted,
  code_of,
}
use video_captioner_r.UseCases.Pipeline.Checks.{Checked, crashes, refuses, accepts}
use video_captioner_r.UseCases.Pipeline.Judged.{Correctable}
use video_captioner_r.UseCases.Pipeline.Requests.{
  repair_user_message, Call, is_final, Round, LlmMessage, max_transport_attempts,
  classify_transport_error,
}
use video_captioner_r.Prelude.{
  ◌++◌, [], length, sym, true, ◌∙◌, ◌∷◌, false, arith, refl, suc, ◌+◌, ◌≡◌, ◌≤◌, ◌⊎◌, List, Option,
  none, some, ℕ, String, inl, inr,
}

pub Checked-cases :
    {A : Type 0} (c : Checked A)
    → (c ≡ crashes) ⊎ ((why : PipelineError) × (c ≡ refuses why)) ⊎ ((a : A) × (c ≡ accepts a))
Checked-cases crashes = inl refl
Checked-cases (refuses why) = inr (inl (why, refl))
Checked-cases (accepts a) = inr (inr (a, refl))

-- How many calls were answered, and how many failed.
abbrev pub answers : List Call → ℕ
answers [] = 0
answers (inl error ∷ calls) = answers calls
answers (inr content ∷ calls) = suc (answers calls)

abbrev pub failures : List Call → ℕ
failures [] = 0
failures (inl error ∷ calls) = suc (failures calls)
failures (inr content ∷ calls) = failures calls

abbrev pub last_call : List Call → Option Call
last_call [] = none
last_call (c ∷ calls) = elim (last_call calls) [ none ↦ some c | some d ↦ some d ]

-- The errors of the transport that no request is repeated for.
abbrev pub Final : ErrorCode → Type 0
Final code = (code ≡ llm_auth_failed) ⊎ (code ≡ llm_model_not_found) ⊎ (code ≡ ErrorCode.cancelled)

module _ {A : Type 0} (check : String → Checked A) where
  -- Another call follows only on an error that is not final, with the same messages, or on a refused
  -- answer, with a message behind them that asks to repair what was refused.
  abbrev pub Next : (PipelineError → String) → List LlmMessage → Call → List LlmMessage → Type 0
  Next show sent (inl error) next = ¬ (Final (code_of error)) × (next ≡ sent)
  Next show sent (inr content) next =
      (why : PipelineError) × (check content ≡ refuses why)
      × (next ≡ sent ++ repair_user_message (show why) ∷ [])

  -- The calls of the rounds from `n` on, of which the first sends `sent`.
  abbrev pub Called :
      (PipelineError → String) → (ℕ → Round) → ℕ → List LlmMessage → List Call → Type 0
  Called show world n sent [] = Unit
  Called show world n sent (c ∷ []) = (world n).chat sent ≡ c
  Called show world n sent (c ∷ d ∷ calls) =
      ((world n).chat sent ≡ c)
      × ((next : List LlmMessage) × Next show sent c next
          × Called show world (n + 1) next (d ∷ calls))

  -- The last answer and what the check makes of it.
  abbrev pub Judges : List Call → Checked A → Type 0
  Judges calls judged =
      (content : String) × (last_call calls ≡ some (inr content)) × (check content ≡ judged)

  -- Why it ends like this, where `s` answers and `t` failures lie behind the calls that start with
  -- round `n`: a last answer that is accepted, that crashes, or that is refused when no attempt is
  -- left; a cancellation, an error of the recorder, or a last failure that is final or the third.
  unfoldable pub Reason :
      (ℕ → Round) → (attempts n s t : ℕ) → List Call → PipelineError ⊎ A → Type 0
  Reason world attempts n s t calls (inr a) = Judges calls (accepts a)
  Reason world attempts n s t calls (inl panicked) = Judges calls crashes
  Reason world attempts n s t calls (inl no_json) =
      (s + answers calls ≡ attempts) × Judges calls (refuses no_json)
  Reason world attempts n s t calls (inl (refused_items why)) =
      (s + answers calls ≡ attempts) × Judges calls (refuses (refused_items why))
  Reason world attempts n s t calls (inl (application e)) =
      ((k : ℕ) × (k ≡ n + length calls)
        × (e ≡ operation_cancelled)
        × ((world k).is_requested ≡ true))
      ⊎ ((k : ℕ) × (suc k ≡ n + length calls)
          × (e ≡ operation_cancelled)
          × ((world k).is_requested_then ≡ true))
      ⊎ ((k : ℕ) × (suc k ≡ n + length calls) × ((world k).record_error ≡ some e))
      ⊎ ((last_call calls ≡ some (inl e))
          × (Final (code_of e) ⊎ (t + failures calls ≡ max_transport_attempts)))
  Reason world attempts n s t calls (inl (cannot_fit id)) = ⊥
  Reason world attempts n s t calls (inl retries_exhausted) = ⊥

  -- The calls stay within both budgets, go on only where they may, and end for a reason.
  unfoldable pub Ends :
      (PipelineError → String)
      → (ℕ → Round)
      → (attempts n s t : ℕ) → List LlmMessage
      → List Call × (PipelineError ⊎ A)
      → Type 0
  unfolding Reason
  Ends show world attempts n s t sent (calls, result) =
      (s + answers calls ≤ attempts)
      × (t + failures calls ≤ max_transport_attempts)
      × Called show world n sent calls
      × Reason world attempts n s t calls result

  pub onward :
      (show : PipelineError → String) (world : ℕ → Round) (n : ℕ) (sent next : List LlmMessage)
      (c : Call) (calls : List Call)
      → (world n).chat sent ≡ c
      → Next show sent c next
      → Called show world (n + 1) next calls
      → Called show world n sent (c ∷ calls)
  onward show world n sent next c [] e g o = e
  onward show world n sent next c (d ∷ calls) e g o = (e, (next, g, o))

  judged_later :
      (c : Call) (calls : List Call) (judged : Checked A)
      → Judges calls judged
      → Judges (c ∷ calls) judged
  judged_later c calls judged (content, e, f) = (content, rw e refl, f)

  pub Reason-later :
      (world : ℕ → Round) (attempts n s t s' t' : ℕ) (c : Call) (calls : List Call)
      (result : PipelineError ⊎ A)
      → s' + answers calls ≡ s + answers (c ∷ calls)
      → t' + failures calls ≡ t + failures (c ∷ calls)
      → Reason world attempts (n + 1) s' t' calls result
      → Reason world attempts n s t (c ∷ calls) result
  unfolding Reason
  Reason-later world attempts n s t s' t' c calls (inr a) h k j = judged_later c calls (accepts a) j
  Reason-later world attempts n s t s' t' c calls (inl panicked) h k j =
      judged_later c calls crashes j
  Reason-later world attempts n s t s' t' c calls (inl no_json) h k (e, j) =
      (sym h ∙ e, judged_later c calls (refuses no_json) j)
  Reason-later world attempts n s t s' t' c calls (inl (refused_items why)) h k (e, j) =
      (sym h ∙ e, judged_later c calls (refuses (refused_items why)) j)
  Reason-later world attempts n s t s' t' c calls (inl (application e)) h k (inl (i, at, x, y)) =
      inl (i, omega arith, x, y)
  Reason-later world attempts n s t s' t' c calls (inl (application e)) h k
        (inr (inl (i, at, x, y))) =
      inr (inl (i, omega arith, x, y))
  Reason-later world attempts n s t s' t' c calls (inl (application e)) h k
        (inr (inr (inl (i, at, x)))) =
      inr (inr (inl (i, omega arith, x)))
  Reason-later world attempts n s t s' t' c calls (inl (application e)) h k
        (inr (inr (inr (l, inl f)))) =
      inr (inr (inr (rw l refl, inl f)))
  Reason-later world attempts n s t s' t' c calls (inl (application e)) h k
        (inr (inr (inr (l, inr f)))) =
      inr (inr (inr (rw l refl, inr (sym k ∙ f))))
  Reason-later world attempts n s t s' t' c calls (inl (cannot_fit id)) h k j = j
  Reason-later world attempts n s t s' t' c calls (inl retries_exhausted) h k j = j

  pub Reason-refused :
      (world : ℕ → Round) (attempts n s t : ℕ) (content : String) (why : PipelineError)
      → Correctable why
      → s + 1 ≡ attempts
      → check content ≡ refuses why
      → Reason world attempts n s t (inr content ∷ []) (inl why)
  unfolding Reason
  Reason-refused world attempts n s t content panicked c h e = absurd c
  Reason-refused world attempts n s t content (application a) c h e = absurd c
  Reason-refused world attempts n s t content (cannot_fit id) c h e = absurd c
  Reason-refused world attempts n s t content no_json c h e = (h, (content, refl, e))
  Reason-refused world attempts n s t content (refused_items v) c h e = (h, (content, refl, e))
  Reason-refused world attempts n s t content retries_exhausted c h e = absurd c

pub Final-of : (code : ErrorCode) → is_final (classify_transport_error code) ≡ true → Final code
unfolding classify_transport_error
Final-of code h = ground arith

pub not-Final :
    (code : ErrorCode) → is_final (classify_transport_error code) ≡ false → ¬ (Final code)
unfolding classify_transport_error
not-Final code h (inl e) = absurd (ground (arith, e))
not-Final code h (inr (inl e)) = absurd (ground (arith, e))
not-Final code h (inr (inr e)) = absurd (ground (arith, e))
