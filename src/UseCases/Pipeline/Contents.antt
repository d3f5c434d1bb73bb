-- ===== src/UseCases/Pipeline/Contents.antt =====
-- crates/core/src/use_cases/llm_pipeline/service.rs: what the checks of a whole response establish.
use video_captioner_r.UseCases.Pipeline.{CueInput, PipelineError}
use video_captioner_r.UseCases.Pipeline.Isolation.{ids_of}
use video_captioner_r.UseCases.Pipeline.Checks.{
  Checked, crashes, refuses, accepts, keys, parse_json, parse_braces, parse_between, check_answer,
}
use video_captioner_r.UseCases.Pipeline.Judged.{Correctable, Judged, Answers, check_answer-Judged}
use video_captioner_r.UseCases.Pipeline.Requests.{check_content}
use video_captioner_r.UseCases.Pipeline.Calls.{Checked-cases}
use video_captioner_r.Subtitle.Transcript.{LlmTextField}
use video_captioner_r.Prelude.Texts.{Text, codes, trim}
use video_captioner_r.Prelude.{
  All, Bool, subst, ◌==◌, ◌≡◌, arith, List, Option, ℕ, String, inl, inr, has,
}

-- A text that is no JSON is an error that a repair answers.
Parses : {Value : Type 0} → Checked Value → Type 0
Parses crashes = Unit
Parses (refuses why) = Correctable why
Parses (accepts value) = Unit

module _ {Value : Type 0} (from_str : Text → Option Value) where
  between-Parses :
      (trimmed : Text) (start end : ℕ) → Parses (parse_between from_str trimmed start end)
  unfolding parse_between Parses
  between-Parses trimmed start end = ground arith

  braces-Parses : (trimmed : Text) → Parses (parse_braces from_str trimmed)
  unfolding parse_braces parse_between Parses
  braces-Parses trimmed = ground arith

  json-Parses : (text : String) → Parses (parse_json from_str text)
  unfolding parse_json parse_braces Parses
  json-Parses text = ground (arith, braces-Parses (trim (codes text)))

module _ (is_below : ℕ → ℕ → Bool) (field : LlmTextField) (cues : List CueInput) where
  -- What the checks of a whole response establish.
  pub ContentJudged : Checked (List (ℕ × String)) → Type 0
  ContentJudged crashes = Unit
  ContentJudged (refuses why) = Correctable why
  ContentJudged (accepts items) =
      ((id : ℕ) → has ◌==◌ id (keys items) ≡ has ◌==◌ id (ids_of cues))
      × All (Answers is_below field items) cues

  of_Judged : (c : Checked (List (ℕ × String))) → Judged is_below field cues c → ContentJudged c
  unfolding Judged ContentJudged
  of_Judged crashes j = tt
  of_Judged (refuses why) j = j
  of_Judged (accepts items) j = j

  module _ {Value : Type 0} (from_str : Text → Option Value)
      (decode : Value → Option (List (ℕ × String))) where
    abbrev answer_of : Checked Value → Checked (List (ℕ × String))
    unfolding check_answer
    answer_of crashes = crashes
    answer_of (refuses why) = refuses why
    answer_of (accepts value) = check_answer is_below field cues (decode value)

    answered : (parsed : Checked Value) → Parses parsed → ContentJudged (answer_of parsed)
    unfolding answer_of Parses ContentJudged
    answered crashes p = tt
    answered (refuses why) p = p
    answered (accepts value) p =
        of_Judged (check_answer is_below field cues (decode value))
          (check_answer-Judged is_below field cues (decode value))

    pub content-ContentJudged :
        (content : String)
        → ContentJudged (check_content from_str decode is_below field cues content)
    unfolding check_content answer_of Parses
    content-ContentJudged content = elim (Checked-cases (parse_json from_str content)) [
      | inl e ↦ rw (e, check_content) (answered crashes tt)
      | inr (inl (why, e)) ↦
          rw (e, check_content)
            (answered (refuses why) (subst Parses e (json-Parses from_str content)))
      | inr (inr (value, e)) ↦ rw (e, check_content) (answered (accepts value) tt)
    ]

    pub content-Correctable :
        (content : String) (why : PipelineError)
        → check_content from_str decode is_below field cues content ≡ refuses why
        → Correctable why
    unfolding ContentJudged
    content-Correctable content why e = subst ContentJudged e (content-ContentJudged content)

    pub content-keys :
        (content : String) (items : List (ℕ × String)) (id : ℕ)
        → check_content from_str decode is_below field cues content ≡ accepts items
        → has ◌==◌ id (keys items) ≡ has ◌==◌ id (ids_of cues)
    unfolding ContentJudged
    content-keys content items id e = (subst ContentJudged e (content-ContentJudged content)).0 id

    -- A response crashes only in its brackets.
    pub content-crashes :
        (content : String)
        → check_content from_str decode is_below field cues content ≡ crashes
        → parse_json from_str content ≡ crashes
    unfolding check_content Judged
    content-crashes content e = elim (Checked-cases (parse_json from_str content)) [
      | inl f ↦ f
      | inr (inl (why, f)) ↦ absurd (cc (rw (f, check_content) at e))
      | inr (inr (value, f)) ↦ absurd (
          subst (Judged is_below field cues) (rw (f, check_content) at e)
            (check_answer-Judged is_below field cues (decode value)))
    ]
