-- ===== src/UseCases/Pipeline/Packing.antt =====
-- crates/core/src/use_cases/llm_pipeline/packing.rs: batches of cues that fit a provider's limits.
-- Two float computations are parameters: `quotient n` is `(n as f64 / cpt).ceil() as u32`, and
-- `with_margin n` is `(n as f64 * TOKEN_SAFETY_MARGIN).ceil() as u64`. The sum of the estimates wraps,
-- as in a release build.
use video_captioner_r.Prelude.Texts.{codes}
use video_captioner_r.UseCases.Pipeline.{CueInput, BatchInput, PipelineError, cannot_fit}
use video_captioner_r.Prelude.{
  if◌then◌else◌, Bool, List, ℕ, String, [], ◌∷◌, ◌++◌, ◌⊎◌, inl, inr, leb, length, take, drop, max,
  sat_add_u32, ◌+◌, ◌%◌, zero, suc,
}

abbrev pub llm_max_items : ℕ
llm_max_items = 20

module _ (quotient with_margin : ℕ → ℕ) (context_limit output_limit : ℕ) where
  abbrev pub estimate_tokens : String → ℕ
  estimate_tokens text = max (quotient (length (codes text))) 1

  abbrev sum_tokens : List CueInput → ℕ
  sum_tokens [] = 0
  sum_tokens (c ∷ cs) = (estimate_tokens c.text + sum_tokens cs) % 4294967296

  unfoldable pub estimate_batch_tokens : List CueInput → List CueInput → ℕ
  estimate_batch_tokens context output = sat_add_u32 (sum_tokens (context ++ output)) 16

  abbrev pub fits_context : ℕ → Bool
  fits_context input = leb (with_margin (input + output_limit)) context_limit

  -- Whether cues fit the limits as the output of a batch.
  unfoldable pub fits : List CueInput → List CueInput → Bool
  unfolding estimate_batch_tokens
  fits context output = fits_context (estimate_batch_tokens context output)

  -- A cue that does not fit ends the batch; alone it is an error.
  abbrev pub stop : ℕ → List CueInput → PipelineError ⊎ List CueInput
  stop id [] = inl (cannot_fit id)
  stop id (c ∷ cs) = inr (c ∷ cs)

  -- The loop over the first twenty cues, with those selected so far.
  unfoldable pub select :
      List CueInput → List CueInput → List CueInput → PipelineError ⊎ List CueInput
  unfolding fits
  select context selected [] = inr selected
  select context selected (item ∷ items) =
      let rest = select context (selected ++ item ∷ []) items in
      if fits context (selected ++ item ∷ []) then rest else stop item.id selected

  unfoldable pub pack_one_batch : List CueInput → List CueInput → ℕ → PipelineError ⊎ BatchInput
  unfolding select
  pack_one_batch outputs context index = elim (select context [] (take llm_max_items outputs)) [
    | inl e ↦ inl e
    | inr selected ↦ inr (record { index = index; output = selected; context = context })
  ]

  -- One round for each cue is enough, as no batch is empty.
  unfoldable pub pack_loop : List CueInput → ℕ → ℕ → List CueInput → PipelineError ⊎ List BatchInput
  unfolding pack_one_batch
  pack_loop context zero index remaining = inr []
  pack_loop context (suc fuel) index [] = inr []
  pack_loop context (suc fuel) index (c ∷ cs) = elim (pack_one_batch (c ∷ cs) context index) [
    | inl e ↦ inl e
    | inr batch ↦
        elim (pack_loop context fuel (sat_add_u32 index 1) (drop (length batch.output) (c ∷ cs))) [
          | inl e ↦ inl e
          | inr batches ↦ inr (batch ∷ batches)
        ]
  ]

  unfoldable pub pack_batches : List CueInput → List CueInput → PipelineError ⊎ List BatchInput
  unfolding pack_loop
  pack_batches outputs context = pack_loop context (length outputs) 0 outputs
