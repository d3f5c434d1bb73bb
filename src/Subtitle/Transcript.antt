-- ===== src/Subtitle/Transcript.antt =====
-- crates/domain/src/subtitle/transcript.rs: the data of a transcript.
pub mod Validate
pub mod Edits
pub mod Split
pub mod Protection
pub mod Changes
pub mod Timeline
pub mod Resplit
pub mod Times
mod Examples
use video_captioner_r.Subtitle.Word.{Word, RangeUsize}
use video_captioner_r.Prelude.{Bool, List, Option, false, none, true, ℕ, String}

pub data TimelineSource : Type 0 where
  asr_words imported_cue : TimelineSource

pub record EngineFingerprint : Type 0 where
  pub engine_id : String
  pub adapter_version : String
  pub runtime_version : String
  pub model_id : String
  pub model_digest : Option String
  pub device : Option String

abbrev pub unknown : EngineFingerprint
unknown = record {
  engine_id = "unknown";
  adapter_version = "0";
  runtime_version = "0";
  model_id = "unknown";
  model_digest = none;
  device = none;
}

pub data FieldOrigin : Type 0 where
  asr rule_split user imported : FieldOrigin
  llm : String → FieldOrigin

abbrev pub is_user : FieldOrigin → Bool
is_user user = true
is_user _ = false

pub data LlmTextField : Type 0 where
  source translation : LlmTextField

pub record LlmResultBinding : Type 0 where
  pub transcript_revision : ℕ
  pub field : LlmTextField
  pub request_id : String

pub record CueTextUpdate : Type 0 where
  pub cue_id : ℕ
  pub expected_field_revision : ℕ
  pub value : String

pub record CueFlags : Type 0 where
  pub llm_failed : Bool
  pub hallucination_filtered : Bool
  pub restored_fragment : Bool
  pub user_edited_text : Bool
  pub user_edited_translation : Bool

abbrev pub no_flags : CueFlags
no_flags = record {
  llm_failed = false;
  hallucination_filtered = false;
  restored_fragment = false;
  user_edited_text = false;
  user_edited_translation = false;
}

pub record Cue : Type 0 where
  pub id : ℕ
  pub word_range : Option RangeUsize
  pub imported_start_ms : Option ℕ
  pub imported_end_ms : Option ℕ
  pub text : String
  pub translation : Option String
  pub flags : CueFlags
  pub text_origin : Option FieldOrigin
  pub translation_origin : Option FieldOrigin
  pub text_revision : ℕ
  pub translation_revision : ℕ

pub record Transcript : Type 0 where
  pub schema_version : ℕ
  pub revision : ℕ
  pub source_hash : String
  pub language : Option String
  pub engine : EngineFingerprint
  pub words : List Word
  pub cues : List Cue
  pub next_cue_id : ℕ
  pub timeline_source : TimelineSource
