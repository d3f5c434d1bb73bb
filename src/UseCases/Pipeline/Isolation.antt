-- ===== src/UseCases/Pipeline/Isolation.antt =====
-- crates/core/src/use_cases/llm_pipeline/service.rs: a batch that is refused is halved until single
-- cues are left. `answer t batch` is the outcome of the t-th request. A `BTreeMap` that is extended is
-- the list of what was inserted, the latest first.
use video_captioner_r.UseCases.Pipeline.{CueInput, BatchInput, PipelineError, can_isolate}
use video_captioner_r.Prelude.{
  if◌then◌else◌, ltb, List, ℕ, String, [], ◌∷◌, ◌++◌, ◌⊎◌, inl, inr, length, take, drop, map, max,
  ◌+◌, ◌*◌, ◌-◌, ◌/◌, zero, suc,
}

-- The accepted items, and the ids of the degraded cues.
abbrev pub Results : Type 0
Results = List (ℕ × String) × List ℕ

abbrev pub ids_of : List CueInput → List ℕ
ids_of cues = map (λ (c : CueInput). c.id) cues

-- How many requests a batch can need.
abbrev pub rounds_of : BatchInput → ℕ
rounds_of batch = max 1 (2 * length batch.output - 1)

abbrev pub halves : BatchInput → BatchInput × BatchInput
halves batch =
    let midpoint = length batch.output / 2 in
    (
      record batch { output = take midpoint batch.output },
      record batch { output = drop midpoint batch.output },
    )

module _ (answer : ℕ → BatchInput → PipelineError ⊎ List (ℕ × String)) where
  -- The loop over the pending batches, the top of the stack first.
  unfoldable pub isolate : ℕ → ℕ → List BatchInput → Results → PipelineError ⊎ Results
  unfolding can_isolate
  isolate zero t pending done = inr done
  isolate (suc fuel) t [] done = inr done
  isolate (suc fuel) t (current ∷ pending) (accepted, degraded) =
      let (first, second) = halves current in
      let halved = isolate fuel (t + 1) (first ∷ second ∷ pending) (accepted, degraded) in
      let given_up = isolate fuel (t + 1) pending (accepted, degraded ++ ids_of current.output) in
      elim (answer t current) [
        | inr items ↦ isolate fuel (t + 1) pending (items ++ accepted, degraded)
        | inl error ↦
            if can_isolate error
            then (if ltb 1 (length current.output) then halved else given_up)
            else inl error
      ]

  unfoldable pub execute_batch : ℕ → BatchInput → Results → PipelineError ⊎ Results
  unfolding isolate
  execute_batch t batch done = isolate (rounds_of batch) t (batch ∷ []) done
