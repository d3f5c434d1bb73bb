-- ===== src/Subtitle/Transcript/Timeline.antt =====
-- crates/domain/src/subtitle/transcript.rs: the edits of a transcript keep its timeline.
use mathlib.Core.Path.{ap₂}
use video_captioner_r.Subtitle.Transcript.{Transcript, Cue, CueTextUpdate, LlmResultBinding}
use video_captioner_r.Subtitle.Transcript.Validate.{validate, cue_times, asr_times, imported_times}
use video_captioner_r.Subtitle.Transcript.Edits.{llm_change, write_field, bump_revision}
use video_captioner_r.Subtitle.Transcript.Changes.{
  Edit, apply, Pairwise, Edited, llm_result, text_edit, translation_edit, failure_marks, llm-Edited,
  text-Edited, translation-Edited, failed-Edited, Edited-Pairwise,
}
use video_captioner_r.Prelude.{
  ap, Result, [], arith, inl, inr, map, ok, refl, ℕ, ◌∙◌, ◌∷◌, ◌≡◌, List,
}

-- The same id, and the same times in every transcript with the same words.
abbrev Anchored : Cue → Cue → Type 0
Anchored c d =
    (d.id ≡ c.id)
    × (d.word_range ≡ c.word_range)
    × (d.imported_start_ms ≡ c.imported_start_ms)
    × (d.imported_end_ms ≡ c.imported_end_ms)

Anchored-refl : (c : Cue) → Anchored c c
Anchored-refl c = (refl, refl, refl, refl)

Anchored-trans : (a b c : Cue) → Anchored a b → Anchored b c → Anchored a c
Anchored-trans a b c (i, r, s, e) (i', r', s', e') = (i' ∙ i, r' ∙ r, s' ∙ s, e' ∙ e)

llm_change-Anchored :
    (binding : LlmResultBinding) (u : CueTextUpdate) (c d : Cue)
    → llm_change binding u c ≡ ok d
    → Anchored c d
unfolding llm_change write_field
llm_change-Anchored binding u c d h = ground arith

apply-Anchored : (e : Edit) (t t' : Transcript) → apply e t ≡ ok t' → Edited Anchored t t'
unfolding apply
apply-Anchored (llm_result binding us) t t' h =
    llm-Edited Anchored Anchored-refl Anchored-trans t t' binding us (llm_change-Anchored binding) h
apply-Anchored (text_edit id revision text) t t' h =
    text-Edited Anchored Anchored-refl Anchored-trans t t' id revision text Anchored-refl h
apply-Anchored (translation_edit id revision text) t t' h =
    translation-Edited Anchored Anchored-refl Anchored-trans t t' id revision text Anchored-refl h
apply-Anchored (failure_marks ids) t t' h =
    failed-Edited Anchored Anchored-refl Anchored-trans t t' ids Anchored-refl h

-- The id of a cue with its times.
abbrev timed : Transcript → Cue → ℕ × Result (ℕ × ℕ)
timed t c = (c.id, cue_times t c)

abbrev pub timeline : Transcript → List (ℕ × Result (ℕ × ℕ))
timeline t = map (timed t) t.cues

cue_times-Anchored :
    (t t' : Transcript) (c d : Cue)
    → t'.words ≡ t.words
    → t'.timeline_source ≡ t.timeline_source
    → Anchored c d
    → timed t' d ≡ timed t c
unfolding cue_times asr_times imported_times
cue_times-Anchored t t' c d w s (i, r, b, e) = ground (arith, i, r, b, e)

times-Anchored :
    (t t' : Transcript) (cs ds : List Cue)
    → t'.words ≡ t.words
    → t'.timeline_source ≡ t.timeline_source
    → Pairwise Anchored cs ds
    → map (timed t') ds ≡ map (timed t) cs
unfolding Pairwise
times-Anchored t t' [] [] w s p = refl
times-Anchored t t' [] (d ∷ ds) w s p = absurd p
times-Anchored t t' (c ∷ cs) [] w s p = absurd p
times-Anchored t t' (c ∷ cs) (d ∷ ds) w s (a, p) =
    ap₂ ◌∷◌ (cue_times-Anchored t t' c d w s a) (times-Anchored t t' cs ds w s p)

-- An accepted edit, by the language model or the user, keeps the words and the id and times of
-- every cue, and its result passes validation.
pub edit_keeps_timeline :
    (e : Edit) (t t' : Transcript)
    → apply e t ≡ ok t'
    → (t'.words ≡ t.words) × (timeline t' ≡ timeline t) × (validate t' ≡ ok tt)
unfolding bump_revision
edit_keeps_timeline e t t' h =
    let (cues, p, form, v) = apply-Anchored e t t' h in
    let words : t'.words ≡ t.words = elim form [
      | inl q ↦ ap (λ (r : Transcript). r.words) q
      | inr q ↦ ap (λ (r : Transcript). r.words) q
    ] in
    let same_source : t'.timeline_source ≡ t.timeline_source = elim form [
      | inl q ↦ ap (λ (r : Transcript). r.timeline_source) q
      | inr q ↦ ap (λ (r : Transcript). r.timeline_source) q
    ] in
    (
      words,
      times-Anchored t t' t.cues t'.cues words same_source
          (Edited-Pairwise Anchored t t' (cues, p, form, v)),
      v,
    )
