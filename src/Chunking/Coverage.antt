-- ===== src/Chunking/Coverage.antt =====
-- `ChunkPlan::build` of crates/core/src/chunking.rs ends, and its plans pass `validate`.
use video_captioner_r.Contracts.{vc_ok}
use video_captioner_r.Chunking.{
  validate_options, end_of_audio, ChunkPlan, CutReason, AudioChunk, SilenceRegion, EnergySample,
  ChunkPlanOptions, options_invalid,
}
use video_captioner_r.Chunking.Build.{
  from_chunks, whole, checked, validate, build, validate_chunks, plan_loop, make_chunk, next_cut,
}
use video_captioner_r.Chunking.Cuts.{choose_cut_inside}
use video_captioner_r.Prelude.{
  ap, ◌==◌, Bool-cases, String, inl, inr, leb, length-append, lt→leb_false, lt→ltb, [], length,
  refl, some, suc, zero, ◌%◌, ◌++◌, ◌∷◌, List, arith, false, max, min, sat_add_u64, ℕ, ◌+◌, ◌-◌,
  ◌<◌, ◌≡◌, ◌≤◌,
}

-- The options that `validate_options` accepts for a duration.
pub record AreValid (duration_ms : ℕ) (o : ChunkPlanOptions) : Type 0 where
  pub min_pos : 0 < o.min_chunk_ms
  pub min_le_max : o.min_chunk_ms ≤ o.max_chunk_ms
  pub min_le_duration : 0 < duration_ms → o.min_chunk_ms ≤ duration_ms

pub options_invalid-AreValid :
    (duration_ms : ℕ) (o : ChunkPlanOptions)
    → options_invalid duration_ms o ≡ false
    → AreValid duration_ms o
unfolding options_invalid
options_invalid-AreValid duration_ms o h = ground arith

AreValid-options_invalid :
    (duration_ms : ℕ) (o : ChunkPlanOptions)
    → AreValid duration_ms o
    → options_invalid duration_ms o ≡ false
unfolding options_invalid
AreValid-options_invalid duration_ms o v = ground arith

-- A cut moves on by at least the minimum, stays below the end, and passes the target by the search
-- radius at most.
pub next_cut_bounds :
    (o : ChunkPlanOptions) (duration_ms : ℕ) (silences : List SilenceRegion)
    (energy : List EnergySample) (core_start_ms : ℕ)
    → AreValid duration_ms o
    → core_start_ms + o.max_chunk_ms < duration_ms
    → let cut = (next_cut o duration_ms silences energy core_start_ms).0 in
      (core_start_ms + o.min_chunk_ms ≤ cut)
      × (cut < duration_ms)
      × (cut ≤ core_start_ms + o.max_chunk_ms + o.search_radius_ms)
unfolding next_cut
next_cut_bounds o duration_ms silences energy core_start_ms v h =
    let target = core_start_ms + o.max_chunk_ms in
    omega (
      arith,
      choose_cut_inside target (max (target - o.search_radius_ms) (core_start_ms + o.min_chunk_ms))
          (min (sat_add_u64 target o.search_radius_ms) (duration_ms - o.min_chunk_ms)) silences
          energy o,
    )

-- Appending a chunk that fits behind chunks that are valid up to its start.
validate_chunks-append :
    (duration_ms i e : ℕ) (cs : List AudioChunk) (c : AudioChunk) (m : ℕ)
    → validate_chunks duration_ms i e cs ≡ some m
    → c.index ≡ i + length cs
    → c.core_start_ms ≡ m
    → c.core_start_ms < c.core_end_ms
    → c.core_end_ms ≤ duration_ms
    → c.read_start_ms ≤ c.core_start_ms
    → c.core_end_ms ≤ c.read_end_ms
    → c.read_end_ms ≤ duration_ms
    → validate_chunks duration_ms i e (cs ++ c ∷ []) ≡ some c.core_end_ms
unfolding validate_chunks
validate_chunks-append duration_ms i e [] c m v ix s ne en rs re rd = ground arith
validate_chunks-append duration_ms i e (d ∷ cs) c m v ix s ne en rs re rd =
    ground (arith, validate_chunks-append duration_ms (suc i) d.core_end_ms cs c m)

-- The chunk that the loop makes for a core `[m, k)` fits behind `m` milliseconds of chunks.
push_chunk :
    (duration_ms : ℕ) (o : ChunkPlanOptions) (cs : List AudioChunk) (m k : ℕ) (reason : CutReason)
    → duration_ms < 4294967296
    → validate_chunks duration_ms 0 0 cs ≡ some m
    → length cs ≤ m
    → m < k
    → k ≤ duration_ms
    → validate_chunks duration_ms 0 0
        (cs ++ make_chunk (length cs % 4294967296) m k o.context_padding_ms reason duration_ms ∷ [])
      ≡ some k
unfolding make_chunk
push_chunk duration_ms o cs m k reason d v l lt le =
    validate_chunks-append duration_ms 0 0 cs _ m v (omega arith) refl lt le (omega arith)
      (omega arith) (omega arith)

-- The loop ends with chunks that tile the audio.
plan_loop_covers :
    (fuel : ℕ) (o : ChunkPlanOptions) (duration_ms : ℕ) (silences : List SilenceRegion)
    (energy : List EnergySample) (m : ℕ) (cs : List AudioChunk)
    → AreValid duration_ms o
    → duration_ms < 4294967296
    → validate_chunks duration_ms 0 0 cs ≡ some m
    → length cs ≤ m
    → m < duration_ms
    → duration_ms < fuel + m
    → (ds : List AudioChunk) × (plan_loop fuel o duration_ms silences energy m cs ≡ some ds)
      × (validate_chunks duration_ms 0 0 ds ≡ some duration_ms)
unfolding plan_loop
plan_loop_covers zero o duration_ms silences energy m cs a d v l lt f = absurd (omega arith)
plan_loop_covers (suc fuel) o duration_ms silences energy m cs a d v l lt f =
    elim (Bool-cases (leb (duration_ms - m) o.max_chunk_ms)) [
      | inl fits ↦ (
        _,
        rw (lt→ltb m duration_ms lt, fits) refl,
        push_chunk duration_ms o cs m duration_ms end_of_audio d v l lt (omega arith),
      )
      | inr long ↦
          let (cut, reason) = next_cut o duration_ms silences energy m in
          let (far, inside, near) =
            next_cut_bounds o duration_ms silences energy m a (ground arith) in
          let next =
            cs
            ++ make_chunk (length cs % 4294967296) m cut o.context_padding_ms reason duration_ms
              ∷ [] in
          let pushed = push_chunk duration_ms o cs m cut reason d v l (omega arith) (omega arith) in
          let (ds, e, w) =
            plan_loop_covers fuel o duration_ms silences energy cut next a d pushed
              (omega (arith, length-append cs)) inside (omega arith) in
          (ds, rw (lt→ltb m duration_ms lt, long, lt→leb_false duration_ms cut inside) e, w)
    ]

module _ (hash : ℕ → ChunkPlanOptions → List AudioChunk → String) where
  validate_of_chunks :
      (duration_ms : ℕ) (o : ChunkPlanOptions) (cs : List AudioChunk)
      → AreValid duration_ms o
      → validate_chunks duration_ms 0 0 cs ≡ some duration_ms
      → validate (from_chunks hash duration_ms o cs) ≡ vc_ok tt
  unfolding validate from_chunks validate_options
  validate_of_chunks duration_ms o cs a v =
      rw (AreValid-options_invalid duration_ms o a, validate) (rw (v, validate) (ground arith))

  whole_covers :
      (duration_ms : ℕ)
      → 0 < duration_ms
      → validate_chunks duration_ms 0 0 (whole hash duration_ms ∷ []) ≡ some duration_ms
  unfolding validate_chunks
  whole_covers duration_ms h = ground arith

  checked_of_valid : (plan : ChunkPlan) → validate plan ≡ vc_ok tt → checked hash plan ≡ vc_ok plan
  checked_of_valid plan h = rw (h, checked)

  -- For options that the code accepts and audio below 2^32 milliseconds, a plan is built
  -- whatever the silences and energies, and it passes the code's own validation.
  pub build_total :
      (duration_ms : ℕ) (silences : List SilenceRegion) (energy : List EnergySample)
      (o : ChunkPlanOptions)
      → options_invalid duration_ms o ≡ false
      → duration_ms < 4294967296
      → (plan : ChunkPlan) × (build hash duration_ms silences energy o ≡ some (vc_ok plan))
        × (validate plan ≡ vc_ok tt)
        × (plan.duration_ms ≡ duration_ms)
        × (plan.options ≡ o)
  unfolding build validate_options
  build_total duration_ms silences energy o valid d =
      let a = options_invalid-AreValid duration_ms o valid in
      elim (Bool-cases (duration_ms == 0)) [
        | inl z ↦ (
          from_chunks hash duration_ms o [],
          rw (valid, build) (rw (z, build) refl),
          validate_of_chunks duration_ms o [] a (unfold validate_chunks in ground arith),
          refl,
          refl,
        )
        | inr z ↦ elim (Bool-cases (leb duration_ms o.max_chunk_ms)) [
          | inl fits ↦ (
            from_chunks hash duration_ms o (whole hash duration_ms ∷ []),
            rw (valid, build) (rw (z, build) (rw (fits, build) refl)),
            validate_of_chunks duration_ms o (whole hash duration_ms ∷ []) a
                (whole_covers duration_ms (ground arith)),
            refl,
            refl,
          )
          | inr long ↦
              let (cs, e, v) =
                plan_loop_covers (suc duration_ms) o duration_ms silences energy 0 [] a d
                  (unfold validate_chunks in refl) (omega arith) (ground arith) (omega arith) in
              (
                from_chunks hash duration_ms o cs,
                rw (valid, build)
                    (rw (z, build)
                      (rw (long, build)
                        (rw (e, build)
                          (ap some (
                            checked_of_valid (from_chunks hash duration_ms o cs)
                              (validate_of_chunks duration_ms o cs a v)))))),
                validate_of_chunks duration_ms o cs a v,
                refl,
                refl,
              )
        ]
      ]
