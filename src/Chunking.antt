-- ===== src/Chunking.antt =====
-- crates/core/src/chunking.rs: the plan of chunks for long audio, and who owns which word.
pub mod Build
pub mod Words
pub mod Cuts
pub mod Coverage
pub mod Ownership
pub mod Sizes
mod Examples
use video_captioner_r.Prelude.{
  Bool, List, Option, Ordering, [], abs_diff, compare, f32_total_cmp, if◌then◌else◌,
  invalid_argument, leb, length, ltb, max, min, min_by, none, not, sat_add_u64, some, suc,
  then_with, zero, ℕ, ◌%◌, ◌&&◌, ◌*◌, ◌++◌, ◌+◌, ◌-◌, ◌/◌, ◌==◌, ◌||◌, ◌∷◌, String,
}
use video_captioner_r.Contracts.{VcResult, vc_ok, vc_err, vc_error, ErrorCode}
use video_captioner_r.Subtitle.Word.{Word}

pub data CutReason : Type 0 where
  single_chunk silence low_energy forced end_of_audio : CutReason

pub record AudioChunk : Type 0 where
  pub index : ℕ
  pub core_start_ms : ℕ
  pub core_end_ms : ℕ
  pub read_start_ms : ℕ
  pub read_end_ms : ℕ
  pub cut_reason : CutReason

pub record SilenceRegion : Type 0 where
  pub start_ms : ℕ
  pub end_ms : ℕ

-- `energy` is the bit pattern of an `f32`.
pub record EnergySample : Type 0 where
  pub at_ms : ℕ
  pub energy : ℕ

pub record ChunkPlanOptions : Type 0 where
  pub search_radius_ms : ℕ
  pub context_padding_ms : ℕ
  pub min_chunk_ms : ℕ
  pub max_chunk_ms : ℕ
  pub min_silence_ms : ℕ

-- From CHUNK_SEARCH_RADIUS_SECS, CHUNK_CONTEXT_PADDING_SECS, MINIMUM_CHUNK_SECS,
-- GLOBAL_MAX_CHUNK_SECS and VAD_MIN_SILENCE_MS of crates/core/src/constants.rs.
abbrev default_options : ChunkPlanOptions
default_options = record {
  search_radius_ms = 30 * 1000;
  context_padding_ms = 1500;
  min_chunk_ms = 60 * 1000;
  max_chunk_ms = 600 * 1000;
  min_silence_ms = 500;
}

pub record ChunkPlan : Type 0 where
  pub schema_version : ℕ
  pub duration_ms : ℕ
  pub options : ChunkPlanOptions
  pub chunks : List AudioChunk
  pub plan_hash : String

abbrev pub invalid {ℓ} : {A : Type ℓ} → String → VcResult A
invalid message = vc_err (vc_error ErrorCode.invalid_argument message)

pub options_invalid : ℕ → ChunkPlanOptions → Bool
options_invalid duration_ms o =
    o.max_chunk_ms == 0
    || (o.min_chunk_ms == 0
        || (ltb o.max_chunk_ms o.min_chunk_ms
            || (ltb 0 duration_ms && ltb duration_ms o.min_chunk_ms)))

pub validate_options : ℕ → ChunkPlanOptions → VcResult (Unit {0})
unfolding options_invalid
validate_options duration_ms o =
    if options_invalid duration_ms o
    then invalid "invalid ChunkPlan minimum/maximum duration"
    else vc_ok tt

-- The part of a silence inside the window, as its length and its middle, if it is long enough.
pub clip : ℕ → ℕ → ℕ → SilenceRegion → Option (ℕ × ℕ)
clip lower upper min_silence_ms region =
    let start = max region.start_ms lower in
    let end = min region.end_ms upper in
    if leb end start || ltb (end - start) min_silence_ms
    then none
    else some (end - start, start + (end - start) / 2)

pub clips : ℕ → ℕ → ℕ → List SilenceRegion → List (ℕ × ℕ)
unfolding clip
clips lower upper min_silence_ms [] = []
clips lower upper min_silence_ms (r ∷ rs) =
    let rest = clips lower upper min_silence_ms rs in
    elim (clip lower upper min_silence_ms r) [ none ↦ rest | some c ↦ c ∷ rest ]

-- Longer first, then nearer to the target, then earlier.
abbrev pub silence_cmp : ℕ → ℕ × ℕ → ℕ × ℕ → Ordering
silence_cmp target left right =
    then_with
      (then_with (compare right.0 left.0)
        (compare (abs_diff left.1 target) (abs_diff right.1 target)))
      (compare left.1 right.1)

pub in_window : ℕ → ℕ → List EnergySample → List EnergySample
in_window lower upper [] = []
in_window lower upper (s ∷ ss) =
    let rest = in_window lower upper ss in
    if leb lower s.at_ms && leb s.at_ms upper then s ∷ rest else rest

-- Quieter first, then nearer to the target, then earlier.
abbrev pub energy_cmp : ℕ → EnergySample → EnergySample → Ordering
energy_cmp target left right =
    then_with
      (then_with (f32_total_cmp left.energy right.energy)
        (compare (abs_diff left.at_ms target) (abs_diff right.at_ms target)))
      (compare left.at_ms right.at_ms)

pub choose_cut :
    ℕ → ℕ → ℕ → List SilenceRegion → List EnergySample → ChunkPlanOptions → ℕ × CutReason
unfolding clips in_window
choose_cut target lower upper silences energy options =
    elim (min_by (silence_cmp target) (clips lower upper options.min_silence_ms silences)) [
      | some c ↦ (c.1, silence)
      | none ↦ elim (min_by (energy_cmp target) (in_window lower upper energy)) [
        | some sample ↦ (sample.at_ms, low_energy)
        | none ↦ (target, forced)
      ]
    ]
