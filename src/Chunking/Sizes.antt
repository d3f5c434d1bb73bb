-- ===== src/Chunking/Sizes.antt =====
-- How long the chunks of `ChunkPlan::build` of crates/core/src/chunking.rs are.
use mathlib.Core.Option.{some-injective}
use video_captioner_r.Contracts.{vc_ok}
use video_captioner_r.Chunking.{
  ChunkPlan, AudioChunk, SilenceRegion, EnergySample, ChunkPlanOptions, options_invalid,
  validate_options, end_of_audio,
}
use video_captioner_r.Chunking.Build.{build, plan_loop, make_chunk, next_cut, from_chunks, checked}
use video_captioner_r.Chunking.Coverage.{AreValid, next_cut_bounds, options_invalid-AreValid}
use video_captioner_r.Prelude.{
  Option-cases, String, lt→leb_false, refl, subst, ◌==◌, All, Bool-cases, [], arith, inl, inr, leb,
  length, ltb, some, suc, zero, ℕ, ◌%◌, ◌++◌, ◌+◌, ◌-◌, ◌∷◌, ◌≡◌, ◌≤◌, ◌⊎◌, List,
}

-- A core has the minimum length or ends the audio, and passes the maximum by the search radius at
-- most.
pub Sized : ChunkPlanOptions → ℕ → AudioChunk → Type 0
Sized o duration_ms c =
    ((c.core_start_ms + o.min_chunk_ms ≤ c.core_end_ms) ⊎ (c.core_end_ms ≡ duration_ms))
    × (c.core_end_ms ≤ c.core_start_ms + o.max_chunk_ms + o.search_radius_ms)

All-append :
    {A : Type 0} → (P : A → Type 0) (xs : List A) (x : A) → All P xs → P x → All P (xs ++ x ∷ [])
All-append P [] x h p = (p, tt)
All-append P (y ∷ ys) x (h, hs) p = (h, All-append P ys x hs p)

loop-Sized :
    (fuel : ℕ) (o : ChunkPlanOptions) (duration_ms : ℕ) (silences : List SilenceRegion)
    (energy : List EnergySample) (m : ℕ) (cs ds : List AudioChunk)
    → AreValid duration_ms o
    → All (Sized o duration_ms) cs
    → plan_loop fuel o duration_ms silences energy m cs ≡ some ds
    → All (Sized o duration_ms) ds
unfolding plan_loop make_chunk Sized
loop-Sized zero o duration_ms silences energy m cs ds a v h = ground arith
loop-Sized (suc fuel) o duration_ms silences energy m cs ds a v h =
    let (cut, reason) = next_cut o duration_ms silences energy m in
    let last =
      make_chunk (length cs % 4294967296) m duration_ms o.context_padding_ms end_of_audio
        duration_ms in
    let next = make_chunk (length cs % 4294967296) m cut o.context_padding_ms reason duration_ms in
    elim (Bool-cases (ltb m duration_ms)) [
      | inr e ↦ subst (All (Sized o duration_ms)) (some-injective _ _ (rw e at h)) v
      | inl e ↦ elim (Bool-cases (leb (duration_ms - m) o.max_chunk_ms)) [
        | inl f ↦
            subst (All (Sized o duration_ms)) (some-injective _ _ (rw (e, f) at h))
              (All-append (Sized o duration_ms) cs last v (inr refl, ground arith))
        | inr f ↦
            let (far, inside, near) =
              next_cut_bounds o duration_ms silences energy m a (ground arith) in
            loop-Sized fuel o duration_ms silences energy cut (cs ++ next ∷ []) ds a
              (All-append (Sized o duration_ms) cs next v (inl far, near))
              (rw (e, f, lt→leb_false duration_ms cut inside) at h)
      ]
    ]

module _ (hash : ℕ → ChunkPlanOptions → List AudioChunk → String) where
  checked-eq-ok : (p plan : ChunkPlan) → checked hash p ≡ vc_ok plan → p ≡ plan
  checked-eq-ok p plan h = ground arith

  -- In a plan that is built, every core has the minimum length or ends the audio, and none is
  -- longer than the maximum and the search radius together.
  pub build-Sized :
      (duration_ms : ℕ) (silences : List SilenceRegion) (energy : List EnergySample)
      (o : ChunkPlanOptions) (plan : ChunkPlan)
      → build hash duration_ms silences energy o ≡ some (vc_ok plan)
      → All (Sized o duration_ms) plan.chunks
  unfolding build validate_options from_chunks Sized
  build-Sized duration_ms silences energy o plan h =
      elim (Bool-cases (options_invalid duration_ms o)) [
        | inl e ↦ absurd (ground (arith, rw (e, build) at h))
        | inr e ↦
            let a = options_invalid-AreValid duration_ms o e in
            elim (Bool-cases (duration_ms == 0)) [
              | inl z ↦ ground (arith, rw (e, z, build) at h)
              | inr z ↦ elim (Bool-cases (leb duration_ms o.max_chunk_ms)) [
                | inl fits ↦ ground (arith, rw (e, z, fits, build) at h)
                | inr long ↦
                    elim (Option-cases
                      (plan_loop (suc duration_ms) o duration_ms silences energy 0 [])) [
                        | inl n ↦ ground (arith, rw (e, z, long, n, build) at h)
                        | inr (cs, n) ↦
                            subst (λ (p : ChunkPlan). All (Sized o duration_ms) p.chunks)
                              (checked-eq-ok (from_chunks hash duration_ms o cs) plan
                                (some-injective _ _ (rw (e, z, long, n, build) at h)))
                              (loop-Sized (suc duration_ms) o duration_ms silences energy 0 [] cs a
                                tt n)
                      ]
              ]
            ]
      ]
