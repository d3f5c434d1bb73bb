-- ===== src/UseCases/Pipeline/Coverage.antt =====
-- crates/core/src/use_cases/llm_pipeline/packing.rs: the batches cover the cues.
use mathlib.Core.List.{append_assoc, append-nil}
use video_captioner_r.UseCases.Pipeline.{
  CueInput, BatchInput, PipelineError, cannot_fit, panicked, application, no_json, refused_items,
  retries_exhausted,
}
use video_captioner_r.UseCases.Pipeline.Packing.{
  pack_loop, pack_batches, fits, select, stop, llm_max_items, pack_one_batch,
}
use video_captioner_r.Prelude.{
  All, Bool-cases, List, [], ap, arith, drop, false, inl, inr, length, length-append, refl,
  sat_add_u32, subst, suc, sym, take, true, zero, ℕ, ◌++◌, ◌<◌, ◌∙◌, ◌∷◌, ◌≡◌, ◌≤◌, ◌⊎◌,
}

abbrev pub all_outputs : List BatchInput → List CueInput
all_outputs [] = []
all_outputs (b ∷ bs) = b.output ++ all_outputs bs

-- The numbers of the batches, one behind the other.
abbrev pub Numbered : ℕ → List BatchInput → Type 0
Numbered index [] = Unit
Numbered index (b ∷ bs) = (b.index ≡ index) × Numbered (sat_add_u32 index 1) bs

take-drop : (n : ℕ) (cs : List CueInput) → cs ≡ take n cs ++ drop n cs
take-drop zero cs = refl
take-drop (suc n) [] = refl
take-drop (suc n) (c ∷ cs) = ap (◌∷◌ c) (take-drop n cs)

drop-append : (xs ys : List CueInput) → drop (length xs) (xs ++ ys) ≡ ys
drop-append [] ys = refl
drop-append (x ∷ xs) ys = drop-append xs ys

length-take : (n : ℕ) (cs : List CueInput) → length (take n cs) ≤ n
length-take zero cs = omega arith
length-take (suc n) [] = omega arith
length-take (suc n) (c ∷ cs) = omega (arith, length-take n cs)

module _ (quotient with_margin : ℕ → ℕ) (context_limit output_limit : ℕ)
    (context : List CueInput) where
  -- A batch with one to twenty cues that fit the limits.
  abbrev pub Suitable : BatchInput → Type 0
  Suitable b =
      (0 < length b.output)
      × (length b.output ≤ llm_max_items)
      × (fits quotient with_margin context_limit output_limit context b.output ≡ true)
      × (b.context ≡ context)

  -- Either every cue is in one batch, in order, or some cue does not fit even alone.
  pub Packed : ℕ → List CueInput → PipelineError ⊎ List BatchInput → Type 0
  Packed index cues (inl (cannot_fit id)) =
      (before : List CueInput) × (c : CueInput) × (after : List CueInput) × (cues
        ≡ before ++ c ∷ after)
      × (c.id ≡ id)
      × (fits quotient with_margin context_limit output_limit context (c ∷ []) ≡ false)
  Packed index cues (inl _) = ⊥
  Packed index cues (inr bs) = (all_outputs bs ≡ cues) × All Suitable bs × Numbered index bs

  -- What a selection comes to that has begun with `selected`.
  abbrev Selects : List CueInput → List CueInput → Type 0
  Selects selected items =
      (taken : List CueInput) × (rest : List CueInput) × (select quotient with_margin context_limit
          output_limit context selected items
        ≡ inr (selected ++ taken))
      × (items ≡ taken ++ rest)
      × (fits quotient with_margin context_limit output_limit context (selected ++ taken) ≡ true)

  stop-Selects :
      (id : ℕ) (s : List CueInput)
      → 0 < length s
      → stop quotient with_margin context_limit output_limit id s ≡ inr s
  stop-Selects id [] h = absurd (omega arith)
  stop-Selects id (c ∷ cs) h = refl

  select-Selects :
      (selected items : List CueInput)
      → 0 < length selected
      → fits quotient with_margin context_limit output_limit context selected ≡ true
      → Selects selected items
  unfolding select
  select-Selects selected [] n h =
      ([], [], ap inr (sym (append-nil selected)), refl, rw (append-nil selected) h)
  select-Selects selected (c ∷ items) n h =
      elim (Bool-cases
        (fits quotient with_margin context_limit output_limit context (selected ++ c ∷ []))) [
          | inr e ↦ (
            [],
            c ∷ items,
            rw (e, append-nil selected, select) (stop-Selects c.id selected n),
            refl,
            rw (append-nil selected) h,
          )
          | inl e ↦
              let (taken, rest, f, g, k) =
                select-Selects (selected ++ c ∷ []) items
                  (omega (arith, length-append selected (c ∷ []))) e in
              (
                c ∷ taken,
                rest,
                rw (e, select) (f ∙ ap inr (append_assoc selected (c ∷ []) taken)),
                ap (◌∷◌ c) g,
                subst (λ o. fits quotient with_margin context_limit output_limit context o ≡ true)
                    (append_assoc selected (c ∷ []) taken) k,
              )
        ]

  -- The first batch of cues that are not none.
  abbrev pub FirstBatch : ℕ → CueInput → List CueInput → Type 0
  FirstBatch index c cs =
      ((fits quotient with_margin context_limit output_limit context (c ∷ []) ≡ false)
        × (pack_one_batch quotient with_margin context_limit output_limit (c ∷ cs) context index
            ≡ inl (cannot_fit c.id)))
      ⊎ ((taken : List CueInput) × (rest : List CueInput) × (pack_one_batch quotient with_margin
              context_limit output_limit (c ∷ cs) context index
            ≡ inr (record { index = index; output = c ∷ taken; context = context }))
          × (cs ≡ taken ++ rest)
          × (length (c ∷ taken) ≤ llm_max_items)
          × (fits quotient with_margin context_limit output_limit context (c ∷ taken) ≡ true))

  first_batch : (index : ℕ) (c : CueInput) (cs : List CueInput) → FirstBatch index c cs
  unfolding pack_one_batch select
  first_batch index c cs =
      elim (Bool-cases (fits quotient with_margin context_limit output_limit context (c ∷ []))) [
        | inr e ↦ inl (e, rw (e, pack_one_batch) refl)
        | inl e ↦
            let (taken, rest, f, g, k) = select-Selects (c ∷ []) (take 19 cs) (omega arith) e in
            inr (
              taken,
              rest ++ drop 19 cs,
              rw (e, f, pack_one_batch) refl,
              take-drop 19 cs ∙ ap (λ o. o ++ drop 19 cs) g ∙ append_assoc taken rest (drop 19 cs),
              omega (arith, length-take 19 cs, ap length g, length-append taken rest),
              k,
            )
      ]

  -- Behind a first batch that is suitable, the rest decides.
  attach :
      (index : ℕ) (taken rest : List CueInput) (packed : PipelineError ⊎ List BatchInput)
      → (let batch : BatchInput = record { index = index; output = taken; context = context } in
          Suitable batch)
      → Packed (sat_add_u32 index 1) rest packed
      → Packed index (taken ++ rest) (elim packed [
        | inl e ↦ inl e
        | inr batches ↦ inr (record { index = index; output = taken; context = context } ∷ batches)
      ])
  unfolding Packed
  attach index taken rest (inl panicked) h p = absurd p
  attach index taken rest (inl (application e)) h p = absurd p
  attach index taken rest (inl (cannot_fit id)) h (before, c, after, e, f, g) = (
    taken ++ before,
    c,
    after,
    ap (λ o. taken ++ o) e ∙ sym (append_assoc taken before (c ∷ after)),
    f,
    g,
  )
  attach index taken rest (inl no_json) h p = absurd p
  attach index taken rest (inl (refused_items why)) h p = absurd p
  attach index taken rest (inl retries_exhausted) h p = absurd p
  attach index taken rest (inr batches) h (e, a, n) = (ap (λ o. taken ++ o) e, (h, a), (refl, n))

  pack_loop-Packed :
      (fuel index : ℕ) (cues : List CueInput)
      → length cues ≤ fuel
      → Packed index cues
          (pack_loop quotient with_margin context_limit output_limit context fuel index cues)
  unfolding pack_loop Packed
  pack_loop-Packed zero index [] h = (refl, tt, tt)
  pack_loop-Packed zero index (c ∷ cs) h = absurd (omega arith)
  pack_loop-Packed (suc fuel) index [] h = (refl, tt, tt)
  pack_loop-Packed (suc fuel) index (c ∷ cs) h = elim (first_batch index c cs) [
    | inl (e, f) ↦ rw (f, pack_loop) ([], c, cs, refl, refl, e)
    | inr (taken, rest, e, g, n, k) ↦
        rw (e, g, drop-append taken rest, pack_loop)
          (attach index (c ∷ taken) rest
            (pack_loop quotient with_margin context_limit output_limit context fuel
              (sat_add_u32 index 1) rest)
            (omega arith, n, k, refl)
            (pack_loop-Packed fuel (sat_add_u32 index 1) rest
              (omega (arith, ap length g, length-append taken rest))))
  ]

  -- The packing of cues either puts them all, in order, into numbered batches of one to twenty
  -- cues that fit the limits, or names a cue that does not fit even alone.
  pub pack_batches-Packed :
      (cues : List CueInput)
      → Packed 0 cues (pack_batches quotient with_margin context_limit output_limit cues context)
  unfolding pack_batches
  pack_batches-Packed cues = pack_loop-Packed (length cues) 0 cues (omega arith)
