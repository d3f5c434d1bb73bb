-- ===== src/Asr/Normalize.antt =====
-- crates/asr/src/normalize.rs: the words of a raw result become those of a transcript.
-- An error is its cause: both have the code TIMESTAMP_INVALID. `panicked` and `domain_refused` are
-- the outcomes of the transcript's own validation.
pub mod Outcome
mod Examples
use video_captioner_r.Prelude.Texts.{trim_text, is_empty_text}
use video_captioner_r.Subtitle.Word.{Word}
use video_captioner_r.Subtitle.Transcript.{Transcript, EngineFingerprint}
use video_captioner_r.Subtitle.Transcript.Validate.{new_asr, validate}
use video_captioner_r.Worker.Helper.{SegmentData, SegmentWord}
use video_captioner_r.Prelude.{
  DomainError, List, Option, [], err, f32_in_unit, f32_minus_one, if◌then◌else◌, ltb, max, min,
  none, ok, panic, some, ℕ, ◌&&◌, ◌++◌, ◌+◌, ◌-◌, ◌==◌, ◌||◌, ◌∷◌, String,
}

pub record AsrRawResult : Type 0 where
  pub language : Option String
  pub segments : List SegmentData
  pub duration_ms : Option ℕ
  pub words : List SegmentWord
  pub engine_id : String
  pub model_id : String
  pub model_digest : Option String

pub record NormalizeOptions : Type 0 where
  pub source_hash : String
  pub duration_ms : Option ℕ
  pub device : Option String

pub data NormalizeFault : Type 0 where
  inverse_timestamps : ℕ → ℕ → String → NormalizeFault
  not_ordered : ℕ → NormalizeFault
  domain_refused : DomainError → NormalizeFault

pub data Normalized {ℓ} (A : Type ℓ) : Type ℓ where
  panicked : Normalized A
  refused : NormalizeFault → Normalized A
  normalized : A → Normalized A

infixl 5 ◌>>>◌
abbrev pub ◌>>>◌ {ℓ κ} :
    {A : Type ℓ} {B : Type κ} → Normalized A → (A → Normalized B) → Normalized B
panicked >>> next = panicked
refused why >>> next = refused why
normalized a >>> next = next a

abbrev largest_end : List SegmentWord → List SegmentData → ℕ
largest_end [] [] = 0
largest_end [] (s ∷ ss) = max s.end_ms (largest_end [] ss)
largest_end (w ∷ ws) ss = max w.end_ms (largest_end ws ss)

unfoldable pub duration_of : AsrRawResult → NormalizeOptions → ℕ
duration_of raw opts = elim opts.duration_ms [
  | some d ↦ d
  | none ↦ elim raw.duration_ms [ some d ↦ d | none ↦ largest_end raw.words raw.segments ]
]

abbrev words_of_segments : List SegmentData → List SegmentWord
words_of_segments [] = []
words_of_segments (s ∷ ss) = elim s.words [
  | none ↦ words_of_segments ss
  | some ws ↦ ws ++ words_of_segments ss
]

-- A segment without words counts as one word.
abbrev segments_as_words : List SegmentData → List SegmentWord
unfolding trim_text
segments_as_words [] = []
segments_as_words (s ∷ ss) =
    let rest = segments_as_words ss in
    if is_empty_text (trim_text s.text)
    then rest
    else record {
      text = trim_text s.text;
      start_ms = s.start_ms;
      end_ms = s.end_ms;
      prob = f32_minus_one;
    }
      ∷ rest

abbrev or_else : List SegmentWord → List SegmentWord → List SegmentWord
or_else [] others = others
or_else (w ∷ ws) others = w ∷ ws

unfoldable pub source_words : AsrRawResult → List SegmentWord
unfolding segments_as_words
source_words raw =
    or_else raw.words (or_else (words_of_segments raw.segments) (segments_as_words raw.segments))

-- Without the clipped times, a word as it is kept.
unfoldable pub kept_word : ℕ → ℕ → SegmentWord → Word
unfolding trim_text
kept_word start end w = record {
  text = trim_text w.text;
  start_ms = start;
  end_ms = end;
  prob = if w.prob == f32_minus_one || f32_in_unit w.prob then w.prob else f32_minus_one;
}

-- One round of the loop: `none` is a word without text, which is left out.
unfoldable pub normalize_word : ℕ → SegmentWord → Normalized (Option Word)
unfolding kept_word trim_text
normalize_word duration w =
    let start = min w.start_ms duration in
    let end = min w.end_ms duration in
    if ltb end start && ltb 1 (start - end)
    then refused (inverse_timestamps start end w.text)
    else if is_empty_text (trim_text w.text)
    then normalized none
    else normalized (some (kept_word start (max start end) w))

unfoldable pub normalize_words : ℕ → List SegmentWord → Normalized (List Word)
unfolding normalize_word
normalize_words duration [] = normalized []
normalize_words duration (w ∷ ws) = normalize_word duration w >>> λ one.
    normalize_words duration ws >>> λ rest.
    normalized (elim one [ none ↦ rest | some word ↦ word ∷ rest ])

-- The check of the order, with the word before and the index of the next.
unfoldable pub check_order : ℕ → Word → List Word → Normalized (Unit {0})
check_order i before [] = normalized tt
check_order i before (w ∷ ws) =
    let rest = check_order (i + 1) w ws in
    if ltb w.start_ms before.start_ms then refused (not_ordered i) else rest

abbrev pub check_words : List Word → Normalized (Unit {0})
unfolding check_order
check_words [] = normalized tt
check_words (w ∷ ws) = check_order 1 w ws

abbrev pub checked : Transcript → Normalized Transcript
unfolding validate
checked t = elim (validate t) [
  | panic ↦ panicked
  | err why ↦ refused (domain_refused why)
  | ok _ ↦ normalized t
]

-- `adapter_version` is the version of the build.
unfoldable pub make_transcript : String → AsrRawResult → NormalizeOptions → List Word → Transcript
unfolding new_asr
make_transcript package_version raw opts words =
    let engine : EngineFingerprint = record {
      engine_id = raw.engine_id;
      adapter_version = package_version;
      runtime_version = "helper";
      model_id = raw.model_id;
      model_digest = raw.model_digest;
      device = opts.device;
    } in
    record (new_asr opts.source_hash engine words) { language = raw.language }

unfoldable pub normalize_asr : String → AsrRawResult → NormalizeOptions → Normalized Transcript
unfolding normalize_words source_words duration_of check_words make_transcript checked
normalize_asr package_version raw opts =
    normalize_words (duration_of raw opts) (source_words raw) >>> λ words.
    check_words words >>> λ _. checked (make_transcript package_version raw opts words)
