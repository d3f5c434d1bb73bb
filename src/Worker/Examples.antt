-- ===== src/Worker/Examples.antt =====
-- The theorems of this component at concrete inputs, and tests.
use video_captioner_r.Worker.{result, MessageType, Envelope, typed, parse}
use video_captioner_r.Worker.Session.{
  refused, invalid_json, WorkerProtocolSession, accept_envelope, accept_line, begin_request,
  accepted,
}
use video_captioner_r.Worker.Rules.{Allows, Fits, MayUse, turn, turn_of, next_name, next_turn}
use video_captioner_r.Worker.Typed.{heard}
use video_captioner_r.Worker.Refinement.{accept_envelope-Allows, allowed_accepted, counted}
use video_captioner_r.Worker.Refusals.{Refuses, accept_line-Refuses}
use video_captioner_r.Worker.Exchange.{owned, count_terminals, one_answer}
use video_captioner_r.Worker.History.{message, run}
use video_captioner_r.Worker.Helper.{
  handle_line, HelperState, Task, new_helper, Payload, Surroundings,
}
use video_captioner_r.Worker.Helper.Busy.{Claims, line-Claims}
use video_captioner_r.Worker.Transcription.{
  EngineAnswer, run_transcribe, Emission, heard as words_heard,
}
use video_captioner_r.Worker.Dialogue.{transcription_heard, Hears, Mixes, nothing, own}
use video_captioner_r.Worker.{pong}
use video_captioner_r.Worker.Writers.{
  Writer, main_thread, task_thread, EmitStep, takes, writes, run_writers, in_turn, idle, emissions,
}
use video_captioner_r.Worker.Lines.{Readable, lines}
use video_captioner_r.Prelude.{
  All, get_elem?, if◌then◌else◌, str_eq, ◌==◌, Bool, List, Option, [], all, arith, false, inl, inr,
  length, map, none, refl, sat_add_u64, some, true, ℕ, ◌∷◌, ◌≡◌, ◌≤◌, ◌⊎◌, String,
}

-- A session that waits for the answer of request 7.
abbrev waiting_session : WorkerProtocolSession
waiting_session = record {
  session_id = some "s";
  next_inbound_seq = 1;
  active_request_id = some 7;
  active_request_terminal = false;
  terminated = false;
}

abbrev idle_session : WorkerProtocolSession
idle_session = record waiting_session { active_request_id = none }

abbrev answered_session : WorkerProtocolSession
answered_session = record waiting_session { next_inbound_seq = 2; active_request_terminal = true }

abbrev answer : Envelope ℕ
answer = record {
  version = 1;
  session_id = "s";
  request_id = some 7;
  seq = 1;
  msg_type = "result";
  payload = none;
}

abbrev second_answer : Envelope ℕ
second_answer = record answer { seq = 2; msg_type = "error" }

-- No line is JSON.
abbrev no_json : String → String ⊎ Envelope ℕ
no_json s = inl "expected value"

answer_accepted : accept_envelope waiting_session answer ≡ (answered_session, accepted answer)
unfolding accept_envelope parse
answer_accepted = refl

accept_envelope-Allows_example :
    (t : MessageType) × (typed answer ≡ some t)
    × (answer ≡ answer)
    × Allows (some "s") (turn waiting_session) t answer
    × (some "s" ≡ next_name (some "s") t answer)
    × (turn answered_session ≡ next_turn (turn waiting_session) t)
    × (◌≡◌ {A = ℕ} 1 1)
    × (◌≡◌ {A = ℕ} 2 (sat_add_u64 1 1))
    × (false ≡ false)
    × (false ≡ false)
accept_envelope-Allows_example =
    accept_envelope-Allows waiting_session answered_session answer answer answer_accepted

answer_allowed : Allows (some "s") (turn waiting_session) result answer
unfolding Allows Fits turn turn_of MayUse
answer_allowed = (refl, (omega arith, refl))

answer-typed : typed answer ≡ some result
unfolding typed parse
answer-typed = refl

allowed_accepted_example :
    accept_envelope waiting_session answer
    ≡ (heard result answer (counted waiting_session), accepted answer)
allowed_accepted_example =
    allowed_accepted waiting_session answer result
      (record { open_session = refl; version_fits = refl; seq_fits = refl }) answer-typed
      answer_allowed

line_refused :
    accept_line no_json waiting_session "oops"
    ≡ (record waiting_session { terminated = true }, refused (invalid_json "expected value"))
unfolding accept_line
line_refused = refl

accept_line-Refuses_example :
    Refuses
      (invalid_json "expected value")
      waiting_session
      (record waiting_session { terminated = true })
accept_line-Refuses_example =
    accept_line-Refuses no_json waiting_session (record waiting_session { terminated = true })
      "oops" (invalid_json "expected value") line_refused

seven_begun : begin_request 7 idle_session ≡ (waiting_session, accepted tt)
unfolding begin_request
seven_begun = refl

one_answer_example :
    (count_terminals (run no_json waiting_session (message answer ∷ message second_answer ∷ [])).1
      ≤ 1)
    × (all (owned 7) (run no_json waiting_session (message answer ∷ message second_answer ∷ [])).1
        ≡ true)
one_answer_example =
    one_answer no_json 7 idle_session waiting_session (message answer ∷ message second_answer ∷ [])
      seven_begun refl

abbrev busy_helper : HelperState
busy_helper = record (new_helper "s" "fake") { busy = true; seq_out = 1 }

abbrev around : Surroundings ℕ
around = record {
  from_ndjson_line = λ l. inr (record answer { msg_type = "transcribe" });
  str_field = λ name value. none;
  u64_field = λ name value. none;
  cancel_data = λ value. none;
  is_file = λ path. true;
  load_error = λ path. none;
  runtime_version = "1";
  package_version = "1";
  show = λ n. "0";
}

line-Claims_example : Claims true (handle_line around "{}" busy_helper)
line-Claims_example = line-Claims around "{}" busy_helper

abbrev job : Task
job = record {
  req_id = some 7;
  audio = "a.wav";
  language = none;
  inject_delay_ms = 0;
  engine = "fake";
}

abbrev is_any_file : String → Bool
is_any_file path = true

abbrev unread : String → Option ℕ
unread path = none

abbrev no_engine : String → Option String → EngineAnswer
no_engine path lang = words_heard 0 [] "en"

abbrev never : ℕ → Bool
never n = false

abbrev spoken : List Emission
spoken = run_transcribe is_any_file unread no_engine never job

unmixed : (es : List Emission) → Mixes es (emissions (map (λ e. (task_thread, e)) es))
unmixed [] = nothing
unmixed (e ∷ es) = own e (unmixed es)

abbrev written : List (Writer × Emission)
written = map (λ e. (task_thread, e)) spoken

four_spoken : length (emissions written) ≡ 4
unfolding run_transcribe
four_spoken = refl

abbrev four_messages : List (Envelope Payload)
unfolding run_writers run_transcribe
four_messages = (run_writers (in_turn written) (idle busy_helper)).1

-- A JSON library that tells the messages of the example apart by their numbers.
abbrev to_line : Envelope Payload → String
to_line m = if m.seq == 1 then "1" else if m.seq == 2 then "2" else if m.seq == 3 then "3" else "4"

abbrev message_at : ℕ → String ⊎ Envelope Payload
unfolding four_messages
message_at i = elim (get_elem? four_messages i) [ none ↦ inl "expected value" | some m ↦ inr m ]

abbrev from_line : String → String ⊎ Envelope Payload
unfolding message_at
from_line l =
    if str_eq l "1"
    then message_at 0
    else if str_eq l "2"
    then message_at 1
    else if str_eq l "3"
    then message_at 2
    else message_at 3

four-Readable :
    All (Readable from_line to_line) (run_writers (in_turn written) (idle busy_helper)).1
unfolding run_writers run_transcribe from_line message_at four_messages
four-Readable =
    ((refl, omega arith), ((refl, omega arith), ((refl, omega arith), ((refl, omega arith), tt))))

transcription_heard_example :
    let (writers, sent) = run_writers (in_turn written) (idle busy_helper) in
    let read = run from_line waiting_session (lines from_line to_line sent) in
    (read.1 ≡ sent) × Hears 7 true read.0 writers.helper
transcription_heard_example =
    transcription_heard from_line to_line is_any_file unread no_engine never job 7 waiting_session
      busy_helper written refl (omega arith)
      (record { is_open = refl; knows = refl; waits = refl; has_answer = refl; counts = refl })
      (unmixed spoken) (omega (arith, four_spoken)) four-Readable

-- A pong that takes its number behind a message of the transcription and is written before it.
abbrev late_pong : Emission
late_pong = record { request_id = none; msg_type = pong; payload = none }

abbrev raced : List EmitStep
raced = elim (get_elem? spoken 0) [
  | none ↦ []
  | some e ↦
      takes task_thread e
      ∷ takes main_thread late_pong
      ∷ writes main_thread
      ∷ writes task_thread
      ∷ []
]

race_ends_session :
    (run from_line waiting_session
      (map message (run_writers raced (idle busy_helper)).1)).0.terminated
    ≡ true
unfolding run_writers run_transcribe run accept_envelope
race_ends_session = refl
