-- ===== src/Chunking/Build.antt =====
-- crates/core/src/chunking.rs: building a plan, and validating one.
use mathlib.Core.Option
use video_captioner_r.Contracts.{VcResult, vc_ok, vc_err}
use video_captioner_r.Chunking.{
  single_chunk, end_of_audio, AudioChunk, CutReason, ChunkPlanOptions, ChunkPlan, SilenceRegion,
  EnergySample, validate_options, choose_cut, invalid,
}
use video_captioner_r.Prelude.{
  List, Option, String, [], if◌then◌else◌, leb, length, ltb, max, min, none, not, sat_add_u64, some,
  suc, zero, ℕ, ◌%◌, ◌&&◌, ◌++◌, ◌+◌, ◌-◌, ◌==◌, ◌||◌, ◌∷◌,
}

unfoldable pub make_chunk : ℕ → ℕ → ℕ → ℕ → CutReason → ℕ → AudioChunk
make_chunk index core_start_ms core_end_ms padding_ms cut_reason duration_ms = record {
  index = index;
  core_start_ms = core_start_ms;
  core_end_ms = core_end_ms;
  read_start_ms = core_start_ms - padding_ms;
  read_end_ms = min (sat_add_u64 core_end_ms padding_ms) duration_ms;
  cut_reason = cut_reason;
}

-- One round of the loop's body for a rest that is too long: the window, and the cut in it.
unfoldable pub next_cut :
    ChunkPlanOptions → ℕ → List SilenceRegion → List EnergySample → ℕ → ℕ × CutReason
unfolding choose_cut
next_cut options duration_ms silences energy core_start_ms =
    let target = core_start_ms + options.max_chunk_ms in
    let lower = max (target - options.search_radius_ms) (core_start_ms + options.min_chunk_ms) in
    let upper =
      min (sat_add_u64 target options.search_radius_ms) (duration_ms - options.min_chunk_ms) in
    let (cut, reason) = choose_cut target lower upper silences energy options in
    (max cut (core_start_ms + options.min_chunk_ms), reason)

-- The loop of `build`; `none` when the fuel runs out. The count of chunks is cast to `u32`.
unfoldable pub plan_loop :
    ℕ
    → ChunkPlanOptions
    → ℕ
    → List SilenceRegion
    → List EnergySample
    → ℕ
    → List AudioChunk
    → Option (List AudioChunk)
unfolding make_chunk
plan_loop zero options duration_ms silences energy core_start_ms chunks = none
plan_loop (suc fuel) options duration_ms silences energy core_start_ms chunks =
    let index = length chunks % 4294967296 in
    let padding = options.context_padding_ms in
    let last = some (
      chunks ++ make_chunk index core_start_ms duration_ms padding end_of_audio duration_ms ∷ []) in
    let (cut, reason) = next_cut options duration_ms silences energy core_start_ms in
    let rest =
      plan_loop fuel options duration_ms silences energy cut
        (chunks ++ make_chunk index core_start_ms cut padding reason duration_ms ∷ []) in
    if not (ltb core_start_ms duration_ms)
    then some chunks
    else if leb (duration_ms - core_start_ms) options.max_chunk_ms
    then last
    else if leb duration_ms cut
    then last
    else rest

-- The loop of `validate`, with what is left of the chunks.
unfoldable pub validate_chunks : ℕ → ℕ → ℕ → List AudioChunk → Option ℕ
validate_chunks duration_ms index expected_start [] = some expected_start
validate_chunks duration_ms index expected_start (c ∷ cs) =
    let rest = validate_chunks duration_ms (suc index) c.core_end_ms cs in
    if not (c.index == index)
      || (not (c.core_start_ms == expected_start)
          || (leb c.core_end_ms c.core_start_ms
              || (ltb duration_ms c.core_end_ms
                  || (ltb c.core_start_ms c.read_start_ms
                      || (ltb c.read_end_ms c.core_end_ms || ltb duration_ms c.read_end_ms)))))
    then none
    else rest

unfoldable pub validate : ChunkPlan → VcResult (Unit {0})
unfolding validate_options validate_chunks
validate plan = elim (validate_options plan.duration_ms plan.options) [
  | vc_err e ↦ vc_err e
  | vc_ok _ ↦ elim (validate_chunks plan.duration_ms 0 0 plan.chunks) [
    | none ↦ invalid "ChunkPlan has invalid ownership or read bounds"
    | some expected_start ↦
        if not (expected_start == plan.duration_ms) && not (plan.duration_ms == 0)
        then invalid "ChunkPlan core ranges do not cover audio duration"
        else vc_ok tt
  ]
]

-- `hash` stands for blake3 over the JSON of a plan.
module _ (hash : ℕ → ChunkPlanOptions → List AudioChunk → String) where
  unfoldable pub from_chunks : ℕ → ChunkPlanOptions → List AudioChunk → ChunkPlan
  from_chunks duration_ms options chunks = record {
    schema_version = 1;
    duration_ms = duration_ms;
    options = options;
    chunks = chunks;
    plan_hash = hash duration_ms options chunks;
  }

  -- `plan.validate()?; Ok(plan)`.
  abbrev pub checked : ChunkPlan → VcResult ChunkPlan
  checked plan = elim (validate plan) [ vc_ok _ ↦ vc_ok plan | vc_err e ↦ vc_err e ]

  abbrev pub whole : ℕ → AudioChunk
  whole duration_ms = record {
    index = 0;
    core_start_ms = 0;
    core_end_ms = duration_ms;
    read_start_ms = 0;
    read_end_ms = duration_ms;
    cut_reason = single_chunk;
  }

  -- `none` would say that the loop needs more rounds than the audio has milliseconds.
  unfoldable pub build :
      ℕ → List SilenceRegion → List EnergySample → ChunkPlanOptions → Option (VcResult ChunkPlan)
  unfolding from_chunks plan_loop validate
  build duration_ms silences energy options = elim (validate_options duration_ms options) [
    | vc_err e ↦ some (vc_err e)
    | vc_ok _ ↦
        if duration_ms == 0
        then some (vc_ok (from_chunks duration_ms options []))
        else if leb duration_ms options.max_chunk_ms
        then some (vc_ok (from_chunks duration_ms options (whole duration_ms ∷ [])))
        else Option.map (λ chunks. checked (from_chunks duration_ms options chunks))
            (plan_loop (suc duration_ms) options duration_ms silences energy 0 [])
  ]
