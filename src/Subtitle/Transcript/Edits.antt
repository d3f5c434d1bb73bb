-- ===== src/Subtitle/Transcript/Edits.antt =====
-- crates/domain/src/subtitle/transcript.rs: the operations that change the cues of a transcript.
use video_captioner_r.Subtitle.Transcript.{
  Transcript, Cue, FieldOrigin, LlmTextField, LlmResultBinding, CueTextUpdate, source, translation,
  user, llm, is_user,
}
use video_captioner_r.Subtitle.Transcript.Validate.{validate, validated}
use video_captioner_r.Prelude.{
  Bool, List, Option, Result, [], cue_id, err, false, if◌then◌else◌, member_not_found, none, not,
  ok, sat_add_u32, sat_add_u64, some, stale_revision, true, ℕ, ◌==◌, ◌>>=◌, ◌||◌, ◌∷◌, String,
}

unfoldable pub bump_revision : Transcript → Transcript
bump_revision t = record t { revision = sat_add_u64 t.revision 1 }

-- The id, and the transcript after it.
unfoldable pub allocate_cue_id : Transcript → ℕ × Transcript
allocate_cue_id t = (t.next_cue_id, record t { next_cue_id = sat_add_u32 t.next_cue_id 1 })

-- `iter_mut().find(|cue| cue.id == id)`, and a change of the cue that is found.
unfoldable pub change_cue : ℕ → (Cue → Result Cue) → List Cue → Result (List Cue)
change_cue id change [] = err (member_not_found "Transcript" (cue_id id))
change_cue id change (c ∷ cs) =
    let rest = change_cue id change cs in
    if c.id == id then (change c >>= λ d. ok (d ∷ cs)) else (rest >>= λ ds. ok (c ∷ ds))

abbrev field_revision : LlmTextField → Cue → ℕ
field_revision source c = c.text_revision
field_revision translation c = c.translation_revision

abbrev field_origin : LlmTextField → Cue → Option FieldOrigin
field_origin source c = c.text_origin
field_origin translation c = c.translation_origin

-- `is_some_and(FieldOrigin::is_user)`.
abbrev pub user_owns : LlmTextField → Cue → Bool
user_owns field c = elim (field_origin field c) [ none ↦ false | some o ↦ is_user o ]

unfoldable pub write_field : LlmTextField → String → String → Cue → Cue
write_field source request_id value c = record c {
  text = value;
  text_origin = some (llm request_id);
  flags = record (c.flags) { user_edited_text = false };
  text_revision = sat_add_u64 c.text_revision 1;
}
write_field translation request_id value c = record c {
  translation = some value;
  translation_origin = some (llm request_id);
  flags = record (c.flags) { user_edited_translation = false };
  translation_revision = sat_add_u64 c.translation_revision 1;
}

-- The body of the loop for the cue that was found.
unfoldable pub llm_change : LlmResultBinding → CueTextUpdate → Cue → Result Cue
unfolding write_field
llm_change binding update c =
    if not (field_revision binding.field c == update.expected_field_revision)
    then err (stale_revision update.expected_field_revision (field_revision binding.field c))
    else if user_owns binding.field c
    then ok c
    else ok (write_field binding.field binding.request_id update.value c)

-- Whether the body changes the cue that it finds, which sets `changed`.
unfoldable pub changes_cue : LlmTextField → ℕ → List Cue → Bool
changes_cue field id [] = false
changes_cue field id (c ∷ cs) =
    let rest = changes_cue field id cs in if c.id == id then not (user_owns field c) else rest

unfoldable pub apply_updates :
    LlmResultBinding → List CueTextUpdate → List Cue → Bool → Result (List Cue × Bool)
unfolding change_cue llm_change changes_cue
apply_updates binding [] cues changed = ok (cues, changed)
apply_updates binding (u ∷ us) cues changed =
    change_cue u.cue_id (llm_change binding u) cues >>= λ next.
    apply_updates binding us next (changed || changes_cue binding.field u.cue_id cues)

abbrev pub bump_if : Bool → Transcript → Transcript
bump_if changed t = if changed then bump_revision t else t

unfoldable pub apply_llm_text :
    Transcript → LlmResultBinding → List CueTextUpdate → Result Transcript
unfolding bump_revision apply_updates validate
apply_llm_text t binding updates =
    if not (t.revision == binding.transcript_revision)
    then err (stale_revision binding.transcript_revision t.revision)
    else apply_updates binding updates t.cues false >>= λ out.
        validated (bump_if out.1 (record t { cues = out.0 }))

abbrev pub user_text : String → Cue → Cue
user_text text c = record c {
  text = text;
  text_origin = some user;
  flags = record (c.flags) { user_edited_text = true };
  text_revision = sat_add_u64 c.text_revision 1;
}

unfoldable pub edit_text : Transcript → ℕ → ℕ → String → Result Transcript
unfolding bump_revision change_cue validate
edit_text t id expected_revision text =
    if not (t.revision == expected_revision)
    then err (stale_revision expected_revision t.revision)
    else change_cue id (λ c. ok (user_text text c)) t.cues >>= λ cues.
        validated (bump_revision (record t { cues = cues }))

abbrev pub user_translation : String → Cue → Cue
user_translation text c = record c {
  translation = some text;
  translation_origin = some user;
  flags = record (c.flags) { user_edited_translation = true };
  translation_revision = sat_add_u64 c.translation_revision 1;
}

unfoldable pub edit_translation : Transcript → ℕ → ℕ → String → Result Transcript
unfolding bump_revision change_cue validate
edit_translation t id expected_revision text =
    if not (t.revision == expected_revision)
    then err (stale_revision expected_revision t.revision)
    else change_cue id (λ c. ok (user_translation text c)) t.cues >>= λ cues.
        validated (bump_revision (record t { cues = cues }))

abbrev pub mark_failed : Cue → Cue
mark_failed c = record c { flags = record (c.flags) { llm_failed = true } }

-- Whether the first cue with the id is not marked yet.
is_unmarked : ℕ → List Cue → Bool
is_unmarked id [] = false
is_unmarked id (c ∷ cs) =
    let rest = is_unmarked id cs in if c.id == id then not c.flags.llm_failed else rest

unfoldable pub mark_cues : List ℕ → List Cue → Bool → Result (List Cue × Bool)
unfolding change_cue is_unmarked
mark_cues [] cues changed = ok (cues, changed)
mark_cues (id ∷ ids) cues changed = change_cue id (λ c. ok (mark_failed c)) cues >>= λ next.
    mark_cues ids next (changed || is_unmarked id cues)

unfoldable pub mark_llm_failed : Transcript → List ℕ → Result Transcript
unfolding bump_revision mark_cues validate
mark_llm_failed t ids =
    mark_cues ids t.cues false >>= λ out. validated (bump_if out.1 (record t { cues = out.0 }))
