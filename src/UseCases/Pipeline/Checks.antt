-- ===== src/UseCases/Pipeline/Checks.antt =====
-- crates/core/src/use_cases/llm_pipeline/validation.rs, and the checks of a text answer in service.rs.
-- `from_str` is `serde_json::from_str`, `decode` is `serde_json::from_value` to the response's items,
-- and `is_below d n` is `1.0 - d as f64 / n as f64 < CORRECTION_SIMILARITY`. Offsets count code points.
use mathlib.Core.Option
use video_captioner_r.Prelude.Texts.{
  Text, codes, trim, is_whitespace, is_ascii_digit, trim_text, is_empty_text,
}
use video_captioner_r.UseCases.Pipeline.{
  CueInput, PipelineError, Violation, no_json, refused_items, duplicate_id, keys_mismatch,
  empty_text, low_similarity, unchanged_residue, response_shape,
}
use video_captioner_r.UseCases.Pipeline.Isolation.{ids_of}
use video_captioner_r.Subtitle.Transcript.{LlmTextField, source, translation}
use video_captioner_r.Prelude.{
  all, any, drop, false, if◌then◌else◌, inl, inr, length, ltb, map, max, min, none, not, position,
  some, suc, take, true, zero, ◌&&◌, ◌+◌, ◌-◌, ◌==◌, ◌||◌, ◌∷◌, ◌⊎◌, Bool, List, Option, ℕ, String,
  has, subset, [],
}

-- The outcome of a check: the panic of a slice or of `expect`, an error, or a result.
pub data Checked {ℓ} (A : Type ℓ) : Type ℓ where
  crashes : Checked A
  refuses : PipelineError → Checked A
  accepts : A → Checked A

abbrev pub starts_with : Text → Text → Bool
starts_with [] text = true
starts_with (c ∷ cs) [] = false
starts_with (c ∷ cs) (d ∷ ds) = c == d && starts_with cs ds

-- `str::find` of a text that is not empty.
unfoldable pub find_text : Text → Text → Option ℕ
find_text needle [] = none
find_text needle (c ∷ cs) =
    if starts_with needle (c ∷ cs) then some 0 else Option.map suc (find_text needle cs)

-- `str::rfind` of a character.
unfoldable pub find_last : (ℕ → Bool) → Text → Option ℕ
find_last p [] = none
find_last p (c ∷ cs) = elim (find_last p cs) [
  | some i ↦ some (suc i)
  | none ↦ if p c then some 0 else none
]

module _ {Value : Type 0} (from_str : Text → Option Value) where
  -- `trimmed[start..=end]`, which panics where the range is not one.
  unfoldable pub parse_between : Text → ℕ → ℕ → Checked Value
  parse_between trimmed start end =
      if ltb (end + 1) start
      then crashes
      else elim (from_str (take (end + 1 - start) (drop start trimmed))) [
        | some value ↦ accepts value
        | none ↦ refuses no_json
      ]

  unfoldable pub parse_braces : Text → Checked Value
  unfolding parse_between find_last
  parse_braces trimmed = elim (position (λ c. c == 123 || c == 91) trimmed) [
    | none ↦ refuses no_json
    | some start ↦ elim (find_last (λ c. c == 125 || c == 93) trimmed) [
      | none ↦ refuses no_json
      | some end ↦ parse_between trimmed start end
    ]
  ]

  -- The body of a fence that is opened by "```json".
  unfoldable pub fenced : Text → Option Value
  unfolding find_text
  fenced trimmed = elim (find_text (codes "```json") trimmed) [
    | none ↦ none
    | some start ↦
        let body = drop (start + 7) trimmed in
        elim (find_text (codes "```") body) [
          | none ↦ none
          | some end ↦ from_str (trim (take end body))
        ]
  ]

  unfoldable pub parse_json : String → Checked Value
  unfolding fenced parse_braces
  parse_json text =
      let trimmed = trim (codes text) in
      elim (from_str trimmed) [
        | some value ↦ accepts value
        | none ↦ elim (fenced trimmed) [ some value ↦ accepts value | none ↦ parse_braces trimmed ]
      ]

-- Without white space.
abbrev visible : Text → Text
unfolding is_whitespace
visible [] = []
visible (c ∷ cs) = let rest = visible cs in if is_whitespace c then rest else c ∷ rest

abbrev normalized_len : String → ℕ
unfolding visible
normalized_len text = length (visible (codes text))

-- A row of the table: `above` is the value before in the row above, `left` the one before in this row.
unfoldable pub next_row : ℕ → Text → ℕ → ℕ → List ℕ → List ℕ
next_row c [] above left previous = []
next_row c (d ∷ ds) above left [] = []
next_row c (d ∷ ds) above left (up ∷ previous) =
    let value = if c == d then above else 1 + min (min above up) left in
    value ∷ next_row c ds up value previous

unfoldable pub next_table : ℕ → Text → ℕ → List ℕ → List ℕ
unfolding next_row
next_table c right i [] = []
next_table c right i (above ∷ previous) = suc i ∷ next_row c right above (suc i) previous

unfoldable pub rows : ℕ → Text → Text → List ℕ → List ℕ
unfolding next_table
rows i [] right previous = previous
rows i (c ∷ left) right previous = rows (suc i) left right (next_table c right i previous)

-- `start..start + n`.
abbrev pub count_from : ℕ → ℕ → List ℕ
count_from start zero = []
count_from start (suc n) = start ∷ count_from (suc start) n

abbrev pub last_or : ℕ → List ℕ → ℕ
last_or x [] = x
last_or x (y ∷ ys) = last_or y ys

unfoldable pub edit_distance : Text → Text → ℕ
unfolding rows
edit_distance left right = last_or 0 (rows 0 left right (count_from 0 (suc (length right))))

unfoldable pub is_original_residue : String → String → Bool
unfolding find_text
is_original_residue source_text translated =
    let source = trim (codes source_text) in
    let other = trim (codes translated) in
    if length source == 0 || not (same_text source other)
    then false
    else starts_with (codes "http://") source
      || (starts_with (codes "https://") source
          || (all (λ c. is_ascii_digit c || any (λ d. d == c) (codes ".,:%-$€£ ")) source
              || (any (λ c. c == 40) source && any (λ c. c == 41) source)))
  where
    same_text : Text → Text → Bool
    same_text [] [] = true
    same_text (c ∷ cs) (d ∷ ds) = c == d && same_text cs ds
    same_text _ _ = false

abbrev pub keys : List (ℕ × String) → List ℕ
keys items = map (λ (item : ℕ × String). item.0) items

-- The items in the order of their insertion, the latest first.
unfoldable pub parse_response_items :
    List (ℕ × String) → List (ℕ × String) → Violation ⊎ List (ℕ × String)
parse_response_items result [] = inr result
parse_response_items result ((id, text) ∷ items) =
    let rest = parse_response_items ((id, text) ∷ result) items in
    if has ◌==◌ id (keys result) then inl (duplicate_id id) else rest

abbrev pub lookup : ℕ → List (ℕ × String) → Option String
lookup id [] = none
lookup id ((other, text) ∷ items) = if other == id then some text else lookup id items

module _ (is_below : ℕ → ℕ → Bool) (field : LlmTextField) where
  -- `normalized_similarity(..) < CORRECTION_SIMILARITY`; equal empty texts are alike.
  unfoldable pub is_unlike : String → String → Bool
  unfolding visible edit_distance
  is_unlike left right =
      let a = visible (codes left) in
      let b = visible (codes right) in
      let max_len = max (length a) (length b) in
      if max_len == 0 then false else is_below (edit_distance a b) max_len

  unfoldable pub text_fault : CueInput → String → Option Violation
  unfolding trim_text is_unlike normalized_len is_original_residue
  text_fault item output =
      if is_empty_text (trim_text output)
      then some (empty_text item.id)
      else if elim field [ source ↦ true | translation ↦ false ]
          && (is_unlike item.text output && ltb 3 (normalized_len item.text))
      then some (low_similarity item.id)
      else if elim field [ source ↦ false | translation ↦ true ]
          && is_original_residue item.text output
      then some (unchanged_residue item.id)
      else none

  unfoldable pub check_texts : List (ℕ × String) → List CueInput → Checked (List (ℕ × String))
  unfolding text_fault
  check_texts items [] = accepts items
  check_texts items (item ∷ cues) =
      let rest = check_texts items cues in
      elim (lookup item.id items) [
        | none ↦ crashes
        | some output ↦ elim (text_fault item output) [
          | some why ↦ refuses (refused_items why)
          | none ↦ rest
        ]
      ]

  unfoldable pub check_keys : List CueInput → List (ℕ × String) → Checked (List (ℕ × String))
  unfolding check_texts
  check_keys cues items =
      let expected = ids_of cues in
      let actual = keys items in
      if subset ◌==◌ expected actual && subset ◌==◌ actual expected
      then check_texts items cues
      else refuses (refused_items (keys_mismatch expected actual))

  unfoldable pub check_answer :
      List CueInput → Option (List (ℕ × String)) → Checked (List (ℕ × String))
  unfolding check_keys parse_response_items
  check_answer cues none = refuses (refused_items response_shape)
  check_answer cues (some decoded) = elim (parse_response_items [] decoded) [
    | inl why ↦ refuses (refused_items why)
    | inr items ↦ check_keys cues items
  ]
