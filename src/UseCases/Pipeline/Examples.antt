-- ===== src/UseCases/Pipeline/Examples.antt =====
-- crates/core/src/use_cases/llm_pipeline: concrete runs.
use video_captioner_r.UseCases.Pipeline.{CueInput, BatchInput, PipelineError, no_json}
use video_captioner_r.UseCases.Pipeline.Packing.{pack_batches}
use video_captioner_r.UseCases.Pipeline.Coverage.{Packed, pack_batches-Packed}
use video_captioner_r.UseCases.Pipeline.Isolation.{ids_of}
use video_captioner_r.UseCases.Pipeline.Checks.{
  Checked, crashes, refuses, accepts, parse_json, check_answer, edit_distance,
}
use video_captioner_r.UseCases.Pipeline.Judged.{Judged, Correctable, check_answer-Judged}
use video_captioner_r.UseCases.Pipeline.Requests.{
  Round, LlmMessage, request_json, execute_text_batch,
}
use video_captioner_r.UseCases.Pipeline.Attempts.{request_json-Ends}
use video_captioner_r.UseCases.Pipeline.Calls.{Ends}
use video_captioner_r.UseCases.Pipeline.Answered.{known}
use video_captioner_r.UseCases.Pipeline.Similarity.{distance, turned, edit_distance-distance}
use video_captioner_r.UseCases.Pipeline.Covered.{text_batch-BatchEnds, BatchEnds}
use video_captioner_r.Subtitle.Transcript.{source}
use video_captioner_r.Prelude.Texts.{Text, codes, trim_end, trim_start, is_whitespace}
use video_captioner_r.Prelude.{
  arith, if◌then◌else◌, length, Bool, false, suc, zero, ◌+◌, ◌/◌, ◌==◌, ◌||◌, ◌∷◌, ◌≡◌, List,
  Option, none, some, ℕ, String, [], inr, has, refl,
}

abbrev cue : ℕ → String → CueInput
cue id text = record { id = id; text = text }

abbrev cues : List CueInput
cues = cue 1 "hello world" ∷ cue 2 "good night" ∷ []

-- Four characters to a token, and no margin.
abbrev quarter : ℕ → ℕ
quarter n = (n + 3) / 4

abbrev plain : ℕ → ℕ
plain n = n

abbrev batch_of : ℕ → List CueInput → BatchInput
batch_of index output = record { index = index; output = output; context = [] }

-- Each cue has three tokens, and there is room for four beside the fixed sixteen.
two_batches :
    pack_batches quarter plain 20 0 cues []
    ≡ inr (batch_of 0 (cue 1 "hello world" ∷ []) ∷ batch_of 1 (cue 2 "good night" ∷ []) ∷ [])
unfolding pack_batches
two_batches = refl

kitten : edit_distance (codes "kitten") (codes "sitting") ≡ 3
unfolding edit_distance
kitten = refl

-- The JSON library of the examples reads texts of two characters and nothing else.
abbrev from_str : Text → Option (List (ℕ × String))
from_str text =
    if length text == 2 then some ((1, "hello, world") ∷ (2, "good night") ∷ []) else none

abbrev never : ℕ → ℕ → Bool
never d n = false

reads_fenced :
    parse_json from_str "Here: ```json ok ``` done"
    ≡ accepts ((1, "hello, world") ∷ (2, "good night") ∷ [])
unfolding parse_json trim_end trim_start is_whitespace
reads_fenced = refl

-- A closing brace behind which only an opening one follows.
braces_crash : parse_json from_str "} and {" ≡ crashes
unfolding parse_json trim_end trim_start is_whitespace
braces_crash = refl

abbrev show : PipelineError → String
show e = "rejected"

abbrev answering : String → Round
answering content = record {
  is_requested = false;
  chat = λ messages. inr content;
  is_requested_then = false;
  record_error = none;
}

-- The first answer is no JSON, later ones are.
abbrev world : ℕ → Round
world zero = answering "sorry"
world (suc n) = answering "ok"

abbrev check_ok : String → Checked ℕ
check_ok content = if length (codes content) == 2 then accepts 1 else refuses no_json

check_ok-Correctable :
    (content : String) (why : PipelineError) → check_ok content ≡ refuses why → Correctable why
check_ok-Correctable content why e = ground arith

second_round : request_json show check_ok world [] 2 ≡ (inr "sorry" ∷ inr "ok" ∷ [], inr 1)
unfolding request_json
second_round = refl

abbrev identity : List (ℕ × String) → Option (List (ℕ × String))
identity items = some items

abbrev no_opening : BatchInput → List LlmMessage
no_opening b = []

accepts_both :
    execute_text_batch from_str identity never source show no_opening
      (λ t. world)
      (batch_of 0 cues)
      ([], [])
    ≡ inr ((2, "good night") ∷ (1, "hello, world") ∷ [], [])
unfolding execute_text_batch trim_end trim_start
accepts_both = refl

pack_batches-Packed_example :
    Packed quarter plain 20 0 [] 0 cues (pack_batches quarter plain 20 0 cues [])
pack_batches-Packed_example = pack_batches-Packed quarter plain 20 0 [] cues

check_answer-Judged_example :
    Judged never source cues (check_answer never source cues (from_str (codes "ok")))
check_answer-Judged_example = check_answer-Judged never source cues (from_str (codes "ok"))

request_json-Ends_example :
    Ends check_ok show world 3 0 0 0 [] (request_json show check_ok world [] 2)
request_json-Ends_example = request_json-Ends show check_ok check_ok-Correctable world [] 2

text_batch-BatchEnds_example :
    BatchEnds from_str identity never source show no_opening
      (λ t. world)
      2
      (known 2 ([], []) || has ◌==◌ 2 (ids_of cues))
      false
      (execute_text_batch from_str identity never source show no_opening
        (λ t. world)
        (batch_of 0 cues)
        ([], []))
text_batch-BatchEnds_example =
    text_batch-BatchEnds from_str identity never source show no_opening (λ t. world)
      (batch_of 0 cues) ([], []) 2

edit_distance-distance_example :
    edit_distance (codes "kitten") (codes "sitting")
    ≡ distance (turned (codes "kitten") []) (turned (codes "sitting") [])
edit_distance-distance_example = edit_distance-distance (codes "kitten") (codes "sitting")
