-- ===== src/UseCases/Pipeline/Judged.antt =====
-- crates/core/src/use_cases/llm_pipeline/service.rs: what the checks of a text answer establish.
use video_captioner_r.UseCases.Pipeline.{CueInput, PipelineError, no_json, refused_items}
use video_captioner_r.UseCases.Pipeline.Isolation.{ids_of}
use video_captioner_r.UseCases.Pipeline.Checks.{
  parse_response_items, Checked, crashes, refuses, accepts, keys, lookup, text_fault, check_texts,
  check_keys, check_answer,
}
use video_captioner_r.Subtitle.Transcript.{LlmTextField}
use video_captioner_r.Prelude.{
  All, Bool, arith, refl, subst, true, ◌&&◌, ◌==◌, ◌∷◌, ◌≡◌, List, Option, none, some, ℕ, String,
  [], inl, inr, has, subset, Sum-cases, Option-cases, Bool-cases,
}

-- An error that a repair message answers.
abbrev pub Correctable : PipelineError → Type 0
Correctable no_json = Unit
Correctable (refused_items why) = Unit
Correctable _ = ⊥

-- A cue whose answer passes the checks.
abbrev pub Answers : (ℕ → ℕ → Bool) → LlmTextField → List (ℕ × String) → CueInput → Type 0
Answers is_below field items cue =
    (text : String) × (lookup cue.id items ≡ some text)
    × (text_fault is_below field cue text ≡ none)

-- No panic, but an error for the repair loop or an answer for just the cues that were asked for.
unfoldable pub Judged :
    (ℕ → ℕ → Bool) → LlmTextField → List CueInput → Checked (List (ℕ × String)) → Type 0
Judged is_below field cues crashes = ⊥
Judged is_below field cues (refuses why) = Correctable why
Judged is_below field cues (accepts items) =
    ((id : ℕ) → has ◌==◌ id (keys items) ≡ has ◌==◌ id (ids_of cues))
    × All (Answers is_below field items) cues

has-lookup :
    (id : ℕ) (items : List (ℕ × String))
    → has ◌==◌ id (keys items) ≡ true
    → (text : String) × (lookup id items ≡ some text)
has-lookup id [] h = absurd (cc h)
has-lookup id ((other, text) ∷ items) h = elim (Bool-cases (other == id)) [
  | inl e ↦ (text, rw e refl)
  | inr e ↦ let (found, f) = has-lookup id items (ground arith) in (found, rw e f)
]

subset-has :
    (id : ℕ) (xs ys : List ℕ)
    → subset ◌==◌ xs ys ≡ true
    → has ◌==◌ id xs ≡ true
    → has ◌==◌ id ys ≡ true
subset-has id [] ys s h = absurd (cc h)
subset-has id (x ∷ xs) ys s h = elim (Bool-cases (x == id)) [
  | inl e ↦
      let same : x ≡ id = ground arith in subst (λ i. has ◌==◌ i ys ≡ true) same (ground arith)
  | inr e ↦ subset-has id xs ys (ground arith) (ground arith)
]

module _ (is_below : ℕ → ℕ → Bool) (field : LlmTextField) where
  -- The same for the texts alone.
  TextsJudged : List (ℕ × String) → List CueInput → Checked (List (ℕ × String)) → Type 0
  TextsJudged items cues crashes = ⊥
  TextsJudged items cues (refuses why) = Correctable why
  TextsJudged items cues (accepts made) = (made ≡ items) × All (Answers is_below field items) cues

  more :
      (items : List (ℕ × String)) (cue : CueInput) (cues : List CueInput)
      (rest : Checked (List (ℕ × String)))
      → Answers is_below field items cue
      → TextsJudged items cues rest
      → TextsJudged items (cue ∷ cues) rest
  unfolding TextsJudged
  more items cue cues crashes a j = j
  more items cue cues (refuses why) a j = j
  more items cue cues (accepts made) a (e, j) = (e, (a, j))

  check_texts-TextsJudged :
      (items : List (ℕ × String)) (cues : List CueInput)
      → subset ◌==◌ (ids_of cues) (keys items) ≡ true
      → TextsJudged items cues (check_texts is_below field items cues)
  unfolding check_texts TextsJudged
  check_texts-TextsJudged items [] s = (refl, tt)
  check_texts-TextsJudged items (c ∷ cs) s =
      let (text, f) = has-lookup c.id items (ground arith) in
      elim (Option-cases (text_fault is_below field c text)) [
        | inr (why, e) ↦ rw (f, e, check_texts) tt
        | inl e ↦
            rw (f, e, check_texts)
              (more items c cs (check_texts is_below field items cs) (text, f, e)
                (check_texts-TextsJudged items cs (ground arith)))
      ]

  conclude :
      (items : List (ℕ × String)) (cues : List CueInput) (made : Checked (List (ℕ × String)))
      → ((id : ℕ) → has ◌==◌ id (keys items) ≡ has ◌==◌ id (ids_of cues))
      → TextsJudged items cues made
      → Judged is_below field cues made
  unfolding TextsJudged Judged
  conclude items cues crashes h j = j
  conclude items cues (refuses why) h j = j
  conclude items cues (accepts made) h (e, a) = ((λ id. rw e (h id)), rw e a)

  check_keys-Judged :
      (cues : List CueInput) (items : List (ℕ × String))
      → Judged is_below field cues (check_keys is_below field cues items)
  unfolding check_keys Judged
  check_keys-Judged cues items =
      let forward = subset ◌==◌ (ids_of cues) (keys items) in
      let backward = subset ◌==◌ (keys items) (ids_of cues) in
      elim (Bool-cases (forward && backward)) [
        | inr e ↦ rw (e, check_keys) tt
        | inl e ↦
            rw (e, check_keys)
              (conclude items cues (check_texts is_below field items cues)
                (λ id. ground (
                  arith,
                  subset-has id (ids_of cues) (keys items),
                  subset-has id (keys items) (ids_of cues),
                ))
                (check_texts-TextsJudged items cues (ground arith)))
      ]

  -- The checks of a text answer never panic: they refuse it with an error that a repair
  -- answers, or accept it with just the ids asked for and a text without fault for each cue.
  pub check_answer-Judged :
      (cues : List CueInput) (decoded : Option (List (ℕ × String)))
      → Judged is_below field cues (check_answer is_below field cues decoded)
  unfolding check_answer Judged
  check_answer-Judged cues none = tt
  check_answer-Judged cues (some decoded) = elim (Sum-cases (parse_response_items [] decoded)) [
    | inl (why, e) ↦ rw (e, check_answer) tt
    | inr (items, e) ↦ rw (e, check_answer) (check_keys-Judged cues items)
  ]
