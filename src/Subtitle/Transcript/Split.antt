-- ===== src/Subtitle/Transcript/Split.antt =====
-- crates/domain/src/subtitle/transcript.rs: `apply_llm_split`.
use video_captioner_r.Subtitle.Word.{Word, RangeUsize}
use video_captioner_r.Subtitle.Joiner.{join_word_texts}
use video_captioner_r.Subtitle.Transcript.{
  Transcript, Cue, TimelineSource, asr_words, imported_cue, no_flags, llm,
}
use video_captioner_r.Subtitle.Transcript.Validate.{validate, validated}
use video_captioner_r.Subtitle.Transcript.Edits.{bump_revision, allocate_cue_id}
use video_captioner_r.Prelude.{
  Bool, List, Result, [], drop, err, false, if◌then◌else◌, invalid_argument, leb, length, ltb, none,
  not, ok, some, take, true, ℕ, ◌&&◌, ◌++◌, ◌-◌, ◌==◌, ◌>>=◌, ◌||◌, ◌∷◌, String,
}

abbrev pub is_asr : TimelineSource → Bool
is_asr asr_words = true
is_asr imported_cue = false

abbrev pub is_empty {ℓ} : {A : Type ℓ} → List A → Bool
is_empty [] = true
is_empty (x ∷ xs) = false

abbrev reject {ℓ} : {A : Type ℓ} → String → Result A
reject message = err (invalid_argument message)

module _ (nfc : String → String) where
  unfoldable pub split_cue : List Word → String → ℕ → RangeUsize → Cue
  unfolding join_word_texts
  split_cue words request_id id range = record {
    id = id;
    word_range = some range;
    imported_start_ms = none;
    imported_end_ms = none;
    text = join_word_texts nfc (take (range.end - range.start) (drop range.start words));
    translation = none;
    flags = no_flags;
    text_origin = some (llm request_id);
    translation_origin = none;
    text_revision = 0;
    translation_revision = 0;
  }

  -- The loop: `out` is the new transcript, the answer is with `previous_end`.
  unfoldable pub split_loop :
      List Word → String → List RangeUsize → ℕ → Transcript → Result (ℕ × Transcript)
  unfolding allocate_cue_id split_cue
  split_loop words request_id [] previous_end out = ok (previous_end, out)
  split_loop words request_id (range ∷ ranges) previous_end out =
      let (id, allocated) = allocate_cue_id out in
      let pushed = record allocated {
        cues = allocated.cues ++ split_cue words request_id id range ∷ [];
      } in
      let rest = split_loop words request_id ranges range.end pushed in
      if not (range.start == previous_end)
        || (leb range.end range.start || ltb (length words) range.end)
      then reject "LLM split ranges must be contiguous and cover the word timeline"
      else rest

  unfoldable pub apply_llm_split : Transcript → List RangeUsize → String → Result Transcript
  unfolding split_loop bump_revision validate
  apply_llm_split t ranges request_id =
      if not (is_asr t.timeline_source)
      then reject "LLM split requires an ASR word timeline"
      else if is_empty ranges && not (is_empty t.words)
      then reject "LLM split must retain every word"
      else split_loop t.words request_id ranges 0 (record t { cues = []; next_cue_id = 1 }) >>= λ r.
          if not (r.0 == length t.words)
          then reject "LLM split ranges do not cover the complete word timeline"
          else validated (bump_revision r.1)
