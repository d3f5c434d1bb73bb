-- ===== src/Subtitle/Transcript/Protection.antt =====
-- crates/domain/src/subtitle/transcript.rs: who may write which field, and at which revision.
use video_captioner_r.Subtitle.Transcript.{
  Transcript, Cue, CueTextUpdate, LlmResultBinding, source, translation,
}
use video_captioner_r.Subtitle.Transcript.Edits.{
  change_cue, user_text, user_translation, apply_llm_text, edit_text, edit_translation, llm_change,
  write_field, bump_revision, user_owns,
}
use video_captioner_r.Subtitle.Transcript.Changes.{
  Edited-Pairwise, Edit, apply, Pairwise, llm_result, text_edit, translation_edit, failure_marks,
  llm-Edited, failed-Edited,
}
use video_captioner_r.Subtitle.Transcript.Validate.{validated-eq-ok}
use video_captioner_r.Prelude.{
  ◌⊎◌, >>=-eq-ok, Bool-cases, ap, inl, inr, sat_add_u64, ℕ, ◌==◌, Bool, arith, err, false, ok, refl,
  stale_revision, suc, true, u64_max, ◌<◌, ◌≡◌, String, List,
}

-- The fields of `c` that the user owns are the same in `d`.
pub UserKept : Cue → Cue → Type 0
UserKept c d =
    ((user_owns source c ≡ false) ⊎ ((d.text ≡ c.text) × (d.text_origin ≡ c.text_origin)))
    × ((user_owns translation c ≡ false)
        ⊎ ((d.translation ≡ c.translation) × (d.translation_origin ≡ c.translation_origin)))

UserKept-refl : (c : Cue) → UserKept c c
unfolding UserKept
UserKept-refl c = (inr (refl, refl), inr (refl, refl))

UserKept-trans : (a b c : Cue) → UserKept a b → UserKept b c → UserKept a c
unfolding UserKept
UserKept-trans a b c (s, t) (s', t') = (ground arith, ground arith)

llm_change-UserKept :
    (binding : LlmResultBinding) (u : CueTextUpdate) (c d : Cue)
    → llm_change binding u c ≡ ok d
    → UserKept c d
unfolding llm_change write_field UserKept
llm_change-UserKept binding u c d h = ground arith

abbrev is_automatic : Edit → Bool
is_automatic (llm_result binding updates) = true
is_automatic (failure_marks ids) = true
is_automatic _ = false

-- An accepted LLM result or failure mark changes no text and no translation that the user owns.
pub user_fields_kept :
    (e : Edit) (t t' : Transcript)
    → is_automatic e ≡ true
    → apply e t ≡ ok t'
    → Pairwise UserKept t.cues t'.cues
unfolding apply bump_revision UserKept
user_fields_kept (llm_result binding us) t t' a h = Edited-Pairwise UserKept t t' (
    llm-Edited UserKept UserKept-refl UserKept-trans t t' binding us (llm_change-UserKept binding)
      h)
user_fields_kept (text_edit id revision text) t t' a h = cc
user_fields_kept (translation_edit id revision text) t t' a h = cc
user_fields_kept (failure_marks ids) t t' a h =
    Edited-Pairwise UserKept t t'
      (failed-Edited UserKept UserKept-refl UserKept-trans t t' ids UserKept-refl h)

text-bumps :
    (t t' : Transcript) (id revision : ℕ) (text : String)
    → edit_text t id revision text ≡ ok t'
    → sat_add_u64 t.revision 1 ≡ t'.revision
unfolding edit_text bump_revision
text-bumps t t' id revision text h = elim (Bool-cases (t.revision == revision)) [
  | inr e ↦ absurd (ground (arith, rw e at h))
  | inl e ↦
      let (cues, f, g) =
        >>=-eq-ok (change_cue id (λ c. ok (user_text text c)) t.cues) _ (rw e at h) in
      ap (λ (r : Transcript). r.revision)
        (validated-eq-ok (bump_revision (record t { cues = cues })) t' g).0
]

translation-bumps :
    (t t' : Transcript) (id revision : ℕ) (text : String)
    → edit_translation t id revision text ≡ ok t'
    → sat_add_u64 t.revision 1 ≡ t'.revision
unfolding edit_translation bump_revision
translation-bumps t t' id revision text h = elim (Bool-cases (t.revision == revision)) [
  | inr e ↦ absurd (ground (arith, rw e at h))
  | inl e ↦
      let (cues, f, g) =
        >>=-eq-ok (change_cue id (λ c. ok (user_translation text c)) t.cues) _ (rw e at h) in
      ap (λ (r : Transcript). r.revision)
        (validated-eq-ok (bump_revision (record t { cues = cues })) t' g).0
]

stale_at :
    (t : Transcript) (revision : ℕ) (binding : LlmResultBinding) (us : List CueTextUpdate)
    → t.revision ≡ suc revision
    → binding.transcript_revision ≡ revision
    → apply_llm_text t binding us ≡ err (stale_revision revision (suc revision))
unfolding apply_llm_text
stale_at t revision binding us e r = ground arith

-- Once a user's edit is accepted, an LLM result bound to the revision before it is refused as
-- stale, unless that revision was the largest value.
pub stale_after_edit :
    (e : Edit) (t t' : Transcript) (binding : LlmResultBinding) (us : List CueTextUpdate)
    → is_automatic e ≡ false
    → apply e t ≡ ok t'
    → binding.transcript_revision ≡ t.revision
    → t.revision < u64_max
    → apply_llm_text t' binding us ≡ err (stale_revision t.revision (suc t.revision))
unfolding apply
stale_after_edit (llm_result b updates) t t' binding us a h r l = cc
stale_after_edit (failure_marks ids) t t' binding us a h r l = cc
stale_after_edit (text_edit id revision text) t t' binding us a h r l =
    stale_at t' t.revision binding us (omega (arith, text-bumps t t' id revision text h)) r
stale_after_edit (translation_edit id revision text) t t' binding us a h r l =
    stale_at t' t.revision binding us (omega (arith, translation-bumps t t' id revision text h)) r
