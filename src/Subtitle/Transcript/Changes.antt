-- ===== src/Subtitle/Transcript/Changes.antt =====
-- What the edits of crates/domain/src/subtitle/transcript.rs can change, cue by cue.
use video_captioner_r.Subtitle.Transcript.{Transcript, Cue, LlmResultBinding, CueTextUpdate}
use video_captioner_r.Subtitle.Transcript.Validate.{validated, validate}
use video_captioner_r.Subtitle.Transcript.Edits.{
  apply_llm_text, edit_text, edit_translation, mark_llm_failed, change_cue, apply_updates,
  mark_cues, llm_change, bump_revision, user_text, user_translation, mark_failed, bump_if,
}
use video_captioner_r.Prelude.{
  false, sym, true, ap, ok-injective, subst, ◌⊎◌, >>=-eq-ok, Bool, Bool-cases, Result, [], arith,
  inl, inr, ok, ℕ, ◌==◌, ◌∷◌, ◌≡◌, String, List,
}

-- The edits that keep the cues: an LLM result, a user's text or translation, and failure marks.
pub data Edit : Type 0 where
  llm_result : LlmResultBinding → List CueTextUpdate → Edit
  text_edit : ℕ → ℕ → String → Edit
  translation_edit : ℕ → ℕ → String → Edit
  failure_marks : List ℕ → Edit

unfoldable pub apply : Edit → Transcript → Result Transcript
unfolding apply_llm_text edit_text edit_translation mark_llm_failed
apply (llm_result binding updates) t = apply_llm_text t binding updates
apply (text_edit id revision text) t = edit_text t id revision text
apply (translation_edit id revision text) t = edit_translation t id revision text
apply (failure_marks ids) t = mark_llm_failed t ids

-- Two lists of cues whose members are related one by one.
unfoldable pub Pairwise : (Cue → Cue → Type 0) → List Cue → List Cue → Type 0
Pairwise R [] [] = Unit
Pairwise R [] (d ∷ ds) = ⊥
Pairwise R (c ∷ cs) [] = ⊥
Pairwise R (c ∷ cs) (d ∷ ds) = R c d × Pairwise R cs ds

module _ (R : Cue → Cue → Type 0) (R_refl : (c : Cue) → R c c)
    (R_trans : (a b c : Cue) → R a b → R b c → R a c) where
  Pairwise-refl : (cs : List Cue) → Pairwise R cs cs
  unfolding Pairwise
  Pairwise-refl [] = tt
  Pairwise-refl (c ∷ cs) = (R_refl c, Pairwise-refl cs)

  Pairwise-trans : (xs ys zs : List Cue) → Pairwise R xs ys → Pairwise R ys zs → Pairwise R xs zs
  unfolding Pairwise
  Pairwise-trans [] [] zs p q = q
  Pairwise-trans [] (y ∷ ys) zs p q = absurd p
  Pairwise-trans (x ∷ xs) [] zs p q = absurd p
  Pairwise-trans (x ∷ xs) (y ∷ ys) [] p q = absurd q
  Pairwise-trans (x ∷ xs) (y ∷ ys) (z ∷ zs) (r, p) (s, q) =
      (R_trans x y z r s, Pairwise-trans xs ys zs p q)

  change_cue-Pairwise :
      (id : ℕ) (change : Cue → Result Cue) (cs ds : List Cue)
      → ((c d : Cue) → change c ≡ ok d → R c d)
      → change_cue id change cs ≡ ok ds
      → Pairwise R cs ds
  unfolding change_cue Pairwise
  change_cue-Pairwise id change [] ds k h = cc
  change_cue-Pairwise id change (c ∷ cs) ds k h = elim (Bool-cases (c.id == id)) [
    | inl e ↦
        let (d, f, g) = >>=-eq-ok (change c) (λ d. ok (d ∷ cs)) (rw e at h) in
        subst (Pairwise R (c ∷ cs)) (ok-injective g) (k c d f, Pairwise-refl cs)
    | inr e ↦
        let (es, f, g) = >>=-eq-ok (change_cue id change cs) (λ es. ok (c ∷ es)) (rw e at h) in
        subst (Pairwise R (c ∷ cs)) (ok-injective g)
          (R_refl c, change_cue-Pairwise id change cs es k f)
  ]

  apply_updates-Pairwise :
      (binding : LlmResultBinding) (us : List CueTextUpdate) (cs : List Cue) (changed : Bool)
      (out : List Cue × Bool)
      → ((u : CueTextUpdate) (c d : Cue) → llm_change binding u c ≡ ok d → R c d)
      → apply_updates binding us cs changed ≡ ok out
      → Pairwise R cs out.0
  unfolding apply_updates
  apply_updates-Pairwise binding [] cs changed out k h =
      subst (Pairwise R cs) (ap (λ p. p.0) (ok-injective h)) (Pairwise-refl cs)
  apply_updates-Pairwise binding (u ∷ us) cs changed out k h =
      let (next, f, g) = >>=-eq-ok (change_cue u.cue_id (llm_change binding u) cs) _ h in
      Pairwise-trans cs next out.0
        (change_cue-Pairwise u.cue_id (llm_change binding u) cs next (k u) f)
        (apply_updates-Pairwise binding us next _ out k g)

  mark_cues-Pairwise :
      (ids : List ℕ) (cs : List Cue) (changed : Bool) (out : List Cue × Bool)
      → ((c : Cue) → R c (mark_failed c))
      → mark_cues ids cs changed ≡ ok out
      → Pairwise R cs out.0
  unfolding mark_cues
  mark_cues-Pairwise [] cs changed out k h =
      subst (Pairwise R cs) (ap (λ p. p.0) (ok-injective h)) (Pairwise-refl cs)
  mark_cues-Pairwise (id ∷ ids) cs changed out k h =
      let (next, f, g) = >>=-eq-ok (change_cue id (λ c. ok (mark_failed c)) cs) _ h in
      Pairwise-trans cs next out.0
        (change_cue-Pairwise id (λ c. ok (mark_failed c)) cs next
          (λ c d e. subst (R c) (ok-injective e) (k c)) f)
        (mark_cues-Pairwise ids next _ out k g)

-- What the edits of a transcript are built from: an accepted edit puts new cues for the old ones,
-- perhaps with a new revision, and the result passes validation.
abbrev pub Edited : (Cue → Cue → Type 0) → Transcript → Transcript → Type 0
Edited R t t' =
    (cues : List Cue) × Pairwise R t.cues cues
    × ((t' ≡ record t { cues = cues }) ⊎ (t' ≡ bump_revision (record t { cues = cues })))
    × (validate t' ≡ ok tt)

pub Edited-Pairwise :
    (R : Cue → Cue → Type 0) (t t' : Transcript) → Edited R t t' → Pairwise R t.cues t'.cues
unfolding bump_revision
Edited-Pairwise R t t' (cues, p, inl q, v) =
    subst (λ (r : Transcript). Pairwise R t.cues r.cues) (sym q) p
Edited-Pairwise R t t' (cues, p, inr q, v) =
    subst (λ (r : Transcript). Pairwise R t.cues r.cues) (sym q) p

validated-Edited :
    (R : Cue → Cue → Type 0) (changed : Bool) (t t' : Transcript) (cues : List Cue)
    → Pairwise R t.cues cues
    → validated (bump_if changed (record t { cues = cues })) ≡ ok t'
    → Edited R t t'
validated-Edited R changed t t' cues p h =
    let out = bump_if changed (record t { cues = cues }) in
    let (x, f, g) = >>=-eq-ok (validate out) (λ _. ok out) h in
    (
      cues,
      p,
      elim (Bool-cases changed) [
        | inl e ↦ inr (sym (ok-injective (rw e at g)))
        | inr e ↦ inl (sym (ok-injective (rw e at g)))
      ],
      subst (λ r. validate r ≡ ok tt) (ok-injective g) f,
    )

module _ (R : Cue → Cue → Type 0) (R_refl : (c : Cue) → R c c)
    (R_trans : (a b c : Cue) → R a b → R b c → R a c) where
  pub llm-Edited :
      (t t' : Transcript) (binding : LlmResultBinding) (us : List CueTextUpdate)
      → ((u : CueTextUpdate) (c d : Cue) → llm_change binding u c ≡ ok d → R c d)
      → apply_llm_text t binding us ≡ ok t'
      → Edited R t t'
  unfolding apply_llm_text
  llm-Edited t t' binding us k h = elim (Bool-cases (t.revision == binding.transcript_revision)) [
    | inr e ↦ absurd (ground (arith, rw e at h))
    | inl e ↦
        let (out, f, g) = >>=-eq-ok (apply_updates binding us t.cues false) _ (rw e at h) in
        validated-Edited R out.1 t t' out.0
          (apply_updates-Pairwise R R_refl R_trans binding us t.cues false out k f) g
  ]

  pub text-Edited :
      (t t' : Transcript) (id revision : ℕ) (text : String)
      → ((c : Cue) → R c (user_text text c))
      → edit_text t id revision text ≡ ok t'
      → Edited R t t'
  unfolding edit_text
  text-Edited t t' id revision text k h = elim (Bool-cases (t.revision == revision)) [
    | inr e ↦ absurd (ground (arith, rw e at h))
    | inl e ↦
        let (cues, f, g) =
          >>=-eq-ok (change_cue id (λ c. ok (user_text text c)) t.cues) _ (rw e at h) in
        validated-Edited R true t t' cues
          (change_cue-Pairwise R R_refl R_trans id (λ c. ok (user_text text c)) t.cues cues
            (λ c d e. subst (R c) (ok-injective e) (k c)) f)
          g
  ]

  pub translation-Edited :
      (t t' : Transcript) (id revision : ℕ) (text : String)
      → ((c : Cue) → R c (user_translation text c))
      → edit_translation t id revision text ≡ ok t'
      → Edited R t t'
  unfolding edit_translation
  translation-Edited t t' id revision text k h = elim (Bool-cases (t.revision == revision)) [
    | inr e ↦ absurd (ground (arith, rw e at h))
    | inl e ↦
        let (cues, f, g) =
          >>=-eq-ok (change_cue id (λ c. ok (user_translation text c)) t.cues) _ (rw e at h) in
        validated-Edited R true t t' cues
          (change_cue-Pairwise R R_refl R_trans id (λ c. ok (user_translation text c)) t.cues cues
            (λ c d e. subst (R c) (ok-injective e) (k c)) f)
          g
  ]

  pub failed-Edited :
      (t t' : Transcript) (ids : List ℕ)
      → ((c : Cue) → R c (mark_failed c))
      → mark_llm_failed t ids ≡ ok t'
      → Edited R t t'
  unfolding mark_llm_failed
  failed-Edited t t' ids k h =
      let (out, f, g) = >>=-eq-ok (mark_cues ids t.cues false) _ h in
      validated-Edited R out.1 t t' out.0
        (mark_cues-Pairwise R R_refl R_trans ids t.cues false out k f) g
