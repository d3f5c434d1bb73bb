-- ===== src/Asr/Normalize/Examples.antt =====
-- crates/asr/src/normalize.rs: its tests, and a run of the theorem.
use video_captioner_r.Subtitle.Transcript.{Transcript}
use video_captioner_r.Worker.Helper.{SegmentData, SegmentWord}
use video_captioner_r.Asr.Normalize.{
  source_words, AsrRawResult, NormalizeOptions, Normalized, normalized, refused, inverse_timestamps,
  normalize_asr, duration_of,
}
use video_captioner_r.Asr.Normalize.Outcome.{Outcome, normalize_outcome}
use video_captioner_r.Prelude.{List, [], ◌∷◌, ℕ, ◌≡◌, refl, some, none, map, f32_one}
use video_captioner_r.Prelude.{List, [], f32_one, map, none, refl, some, ℕ, ◌∷◌, ◌≡◌}

abbrev hi : SegmentWord
hi = record { text = " hi"; start_ms = 0; end_ms = 200; prob = 0 }

abbrev there : SegmentWord
there = record { text = "there"; start_ms = 210; end_ms = 5000; prob = f32_one }

abbrev inverse : SegmentWord
inverse = record { text = "x"; start_ms = 500; end_ms = 100; prob = 0 }

abbrev raw_of : List SegmentWord → List SegmentData → AsrRawResult
raw_of words segments = record {
  language = some "en";
  segments = segments;
  duration_ms = some 1000;
  words = words;
  engine_id = "fake";
  model_id = "tiny";
  model_digest = none;
}

abbrev options : NormalizeOptions
options = record { source_hash = "h"; duration_ms = some 1000; device = some "cpu" }

abbrev segment : SegmentData
segment = record { text = "hi there"; start_ms = 0; end_ms = 500; words = some (hi ∷ there ∷ []) }

abbrev ends_of : Normalized Transcript → List ℕ
ends_of (normalized t) = map (λ w. w.end_ms) t.words
ends_of _ = []

normalizes_and_clips :
    ends_of (normalize_asr "0.1.0" (raw_of [] (segment ∷ [])) options) ≡ 200 ∷ 1000 ∷ []
unfolding normalize_asr
normalizes_and_clips = refl

rejects_large_inversion :
    normalize_asr "0.1.0" (raw_of (inverse ∷ []) []) options
    ≡ refused (inverse_timestamps 500 100 "x")
unfolding normalize_asr
rejects_large_inversion = refl

normalize_outcome_example :
    Outcome
      (duration_of (raw_of [] (segment ∷ [])) options)
      (source_words (raw_of [] (segment ∷ [])))
      (normalize_asr "0.1.0" (raw_of [] (segment ∷ [])) options)
normalize_outcome_example = normalize_outcome "0.1.0" (raw_of [] (segment ∷ [])) options
