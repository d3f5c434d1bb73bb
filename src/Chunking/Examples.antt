-- ===== src/Chunking/Examples.antt =====
-- The theorems of crates/core/src/chunking.rs at concrete audio.
use video_captioner_r.Contracts.{vc_ok}
use video_captioner_r.Subtitle.Word.{Word}
use video_captioner_r.Chunking.{
  ChunkPlan, ChunkPlanOptions, AudioChunk, SilenceRegion, EnergySample, choose_cut, clip, clips,
  in_window, validate_options, options_invalid, silence, end_of_audio,
}
use video_captioner_r.Chunking.Build.{
  build, validate, plan_loop, next_cut, make_chunk, from_chunks, validate_chunks,
}
use video_captioner_r.Chunking.Cuts.{Ranked, choose_cut-Ranked}
use video_captioner_r.Chunking.Coverage.{build_total}
use video_captioner_r.Chunking.Ownership.{kept, centered_in, kept_once}
use video_captioner_r.Chunking.Sizes.{Sized, build-Sized}
use video_captioner_r.Prelude.{All, List, String, [], arith, some, ℕ, ◌∷◌, ◌≡◌, refl}

abbrev options : ChunkPlanOptions
options = record {
  search_radius_ms = 2;
  context_padding_ms = 1;
  min_chunk_ms = 2;
  max_chunk_ms = 6;
  min_silence_ms = 1;
}

abbrev silences : List SilenceRegion
silences = record { start_ms = 6; end_ms = 10 } ∷ []

abbrev samples : List EnergySample
samples = record { at_ms = 5; energy = 7 } ∷ record { at_ms = 6; energy = 3 } ∷ []

abbrev no_hash : ℕ → ChunkPlanOptions → List AudioChunk → String
no_hash duration_ms o chunks = "h"

abbrev first : AudioChunk
first = record {
  index = 0;
  core_start_ms = 0;
  core_end_ms = 7;
  read_start_ms = 0;
  read_end_ms = 8;
  cut_reason = silence;
}

abbrev second : AudioChunk
second = record {
  index = 1;
  core_start_ms = 7;
  core_end_ms = 11;
  read_start_ms = 6;
  read_end_ms = 11;
  cut_reason = end_of_audio;
}

abbrev plan : ChunkPlan
plan = record {
  schema_version = 1;
  duration_ms = 11;
  options = options;
  chunks = first ∷ second ∷ [];
  plan_hash = "h";
}

plan_built : build no_hash 11 silences samples options ≡ some (vc_ok plan)
unfolding build validate_options options_invalid plan_loop next_cut choose_cut clips clip in_window
    make_chunk from_chunks validate validate_chunks
plan_built = refl

choose_cut-Ranked_example : Ranked 6 4 8 [] samples options (choose_cut 6 4 8 [] samples options)
choose_cut-Ranked_example = choose_cut-Ranked 6 4 8 [] samples options

build_total_example :
    (p : ChunkPlan) × (build no_hash 11 silences samples options ≡ some (vc_ok p))
    × (validate p ≡ vc_ok tt)
    × (p.duration_ms ≡ 11)
    × (p.options ≡ options)
build_total_example =
    build_total no_hash 11 silences samples options (unfold options_invalid in refl) (omega arith)

build-Sized_example : All (Sized options 11) plan.chunks
build-Sized_example = build-Sized no_hash 11 silences samples options plan plan_built

abbrev words : List Word
words =
    record { text = "a"; start_ms = 6; end_ms = 8; prob = 0 }
    ∷ record { text = "b"; start_ms = 11; end_ms = 12; prob = 0 }
    ∷ []

kept_once_example : kept words plan.chunks ≡ centered_in 0 plan.duration_ms words
kept_once_example =
    kept_once plan words (unfold validate validate_options options_invalid validate_chunks in refl)
      (omega arith)
