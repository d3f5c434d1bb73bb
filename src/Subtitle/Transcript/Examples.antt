-- ===== src/Subtitle/Transcript/Examples.antt =====
-- The theorems of crates/domain/src/subtitle/transcript.rs at concrete transcripts.
use video_captioner_r.Subtitle.Word.{Word, RangeUsize, validate_word}
use video_captioner_r.Subtitle.Transcript.{
  Transcript, Cue, LlmResultBinding, CueTextUpdate, asr_words, unknown, no_flags, user, translation,
  rule_split,
}
use video_captioner_r.Subtitle.Transcript.Validate.{
  validate, validate_words, validate_order, validate_cues, next_end, cue_times, asr_times,
}
use video_captioner_r.Subtitle.Transcript.Edits.{
  allocate_cue_id, bump_revision, change_cue, apply_updates, apply_llm_text, edit_translation,
  llm_change, changes_cue,
}
use video_captioner_r.Subtitle.Transcript.Split.{apply_llm_split, split_loop, split_cue}
use video_captioner_r.Subtitle.Transcript.Changes.{llm_result, translation_edit, apply, Pairwise}
use video_captioner_r.Subtitle.Transcript.Timeline.{timeline, edit_keeps_timeline}
use video_captioner_r.Subtitle.Transcript.Protection.{UserKept, user_fields_kept}
use video_captioner_r.Subtitle.Transcript.Resplit.{Tiles, split_covers, split_accepts}
use video_captioner_r.Prelude.{
  List, [], arith, length, map, none, ok, refl, some, true, ℕ, ◌∷◌, ◌≡◌, String,
}

abbrev same_text : String → String
same_text s = s

abbrev words : List Word
words =
    record { text = "hello"; start_ms = 0; end_ms = 200; prob = 0 }
    ∷ record { text = "world"; start_ms = 220; end_ms = 500; prob = 0 }
    ∷ []

abbrev cue : ℕ → RangeUsize → String → Cue
cue id range text = record {
  id = id;
  word_range = some range;
  imported_start_ms = none;
  imported_end_ms = none;
  text = text;
  translation = none;
  flags = no_flags;
  text_origin = some rule_split;
  translation_origin = none;
  text_revision = 0;
  translation_revision = 0;
}

abbrev transcript : Transcript
transcript = record {
  schema_version = 1;
  revision = 1;
  source_hash = "h";
  language = none;
  engine = unknown;
  words = words;
  cues =
      cue 1 (record { start = 0; end = 1 }) "hello"
      ∷ cue 2 (record { start = 1; end = 2 }) "world"
      ∷ [];
  next_cue_id = 3;
  timeline_source = asr_words;
}

abbrev translated : Cue
translated = record (cue 2 (record { start = 1; end = 2 }) "world") {
  translation = some "Welt";
  translation_origin = some user;
  flags = record no_flags { user_edited_translation = true };
  translation_revision = 1;
}

abbrev edited : Transcript
edited = record transcript {
  revision = 2;
  cues = cue 1 (record { start = 0; end = 1 }) "hello" ∷ translated ∷ [];
}

edited_reached : apply (translation_edit 2 1 "Welt") transcript ≡ ok edited
unfolding apply edit_translation bump_revision change_cue validate validate_words validate_word
    validate_order validate_cues next_end cue_times asr_times
edited_reached = refl

edit_keeps_timeline_example :
    (edited.words ≡ transcript.words)
    × (timeline edited ≡ timeline transcript)
    × (validate edited ≡ ok tt)
edit_keeps_timeline_example =
    edit_keeps_timeline (translation_edit 2 1 "Welt") transcript edited edited_reached

abbrev binding : ℕ → LlmResultBinding
binding revision = record { transcript_revision = revision; field = translation; request_id = "r" }

abbrev update : CueTextUpdate
update = record { cue_id = 2; expected_field_revision = 1; value = "Erde" }

update_applied : apply (llm_result (binding 2) (update ∷ [])) edited ≡ ok edited
unfolding apply apply_llm_text apply_updates llm_change changes_cue change_cue validate
    validate_words validate_word validate_order validate_cues next_end cue_times asr_times
update_applied = refl

user_fields_kept_example : Pairwise UserKept edited.cues edited.cues
user_fields_kept_example =
    user_fields_kept (llm_result (binding 2) (update ∷ [])) edited edited refl update_applied

abbrev ranges : List RangeUsize
ranges = record { start = 0; end = 1 } ∷ record { start = 1; end = 2 } ∷ []

split_accepts_example :
    (t' : Transcript) × (apply_llm_split same_text transcript ranges "r" ≡ ok t')
split_accepts_example =
    split_accepts same_text transcript ranges "r" refl refl
      (unfold validate_words validate_word in refl) (unfold validate_order in refl)
      (unfold Tiles in (refl, omega arith, omega arith, (refl, omega arith, omega arith, refl)))

abbrev resplit : Transcript
resplit = record transcript {
  revision = 2;
  cues =
      split_cue same_text words "r" 1 (record { start = 0; end = 1 })
      ∷ split_cue same_text words "r" 2 (record { start = 1; end = 2 })
      ∷ [];
}

resplit_reached : apply_llm_split same_text transcript ranges "r" ≡ ok resplit
unfolding apply_llm_split split_loop split_cue bump_revision allocate_cue_id validate validate_words
    validate_word validate_order validate_cues next_end cue_times asr_times
resplit_reached = refl

split_covers_example :
    Tiles 0 (length resplit.words) ranges
    × (resplit.words ≡ transcript.words)
    × (map (λ (c : Cue). c.word_range) resplit.cues ≡ map some ranges)
    × (validate resplit ≡ ok tt)
split_covers_example = split_covers same_text transcript resplit ranges "r" resplit_reached
