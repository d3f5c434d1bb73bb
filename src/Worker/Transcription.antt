-- ===== src/Worker/Transcription.antt =====
-- crates/whisper-helper/src/{session,fake_engine}.rs: the thread that transcribes, as the messages
-- that it writes.
-- Another thread handles cancellations meanwhile: `checks n` is the answer to the n-th question
-- whether the request is cancelled. The whisper engine, the length of a WAV file and the file
-- system are parameters. No duration is so long that its triple overflows.
pub mod Conclusion
use Prim.Native.Char.{code}
use Prim.Native.String.{[] as empty, ◌∷◌ as ◌∷s◌}
use video_captioner_r.Worker.{segment, result, progress, language, error, cancelled, MessageType}
use video_captioner_r.Worker.Helper.{
  segment_data, result_data, progress_data, language_data, error_data, emit_error, emit, Task,
  Payload, SegmentData, SegmentWord, HelperState, Written,
}
use video_captioner_r.Prelude.{
  Bool, List, Option, [], false, if◌then◌else◌, ltb, max, none, not, panic, some, str_eq, suc, true,
  zero, ℕ, ◌&&◌, ◌*◌, ◌++◌, ◌+s◌, ◌+◌, ◌/◌, ◌==◌, ◌||◌, ◌∷◌, String,
}

-- `str::contains`.
abbrev has_prefix : String → String → Bool
has_prefix empty s = true
has_prefix (c ∷s needle) empty = false
has_prefix (c ∷s needle) (d ∷s s) = code c == code d && has_prefix needle s

abbrev contains : String → String → Bool
contains needle empty = has_prefix needle empty
contains needle (c ∷s s) = has_prefix needle (c ∷s s) || contains needle s

-- What an engine gives: the duration, the words and the language, or an error, as its
-- own text and as the text with its causes.
pub data EngineAnswer : Type 0 where
  heard : ℕ → List SegmentWord → String → EngineAnswer
  failed : String → String → EngineAnswer

-- Before a message has its number: its request, its type and its payload.
pub record Emission : Type 0 where
  pub request_id : Option ℕ
  pub msg_type : MessageType
  pub payload : Option Payload

-- The words of the fake engine, for an audio of `duration_ms`.
fake_words : ℕ → List SegmentWord
fake_words d =
    record { text = "hello"; start_ms = 0; end_ms = max (d / 4) 1; prob = 0x3f733333 }
    ∷ record { text = "from"; start_ms = d / 4; end_ms = d / 2; prob = 0x3f666666 }
    ∷ record { text = "whisper"; start_ms = d / 2; end_ms = d * 3 / 4; prob = 0x3f6b851f }
    ∷ record { text = "helper"; start_ms = d * 3 / 4; end_ms = max d 1; prob = 0x3f68f5c3 }
    ∷ []

-- `wav_duration_ms(path).unwrap_or(1000)`.
abbrev or_second : Option ℕ → ℕ
or_second none = 1000
or_second (some d) = d

pub fake_transcribe : Option ℕ → ℕ × List SegmentWord
unfolding fake_words
fake_transcribe wav_duration_ms = let d = or_second wav_duration_ms in (max d 1, fake_words d)

abbrev join_texts : List SegmentWord → String
join_texts [] = ""
join_texts (w ∷ []) = w.text
join_texts (w ∷ ws) = w.text +s " " +s join_texts ws

-- `words.last().map(|w| w.end_ms).unwrap_or(duration_ms)`.
abbrev last_end : ℕ → List SegmentWord → ℕ
last_end duration [] = duration
last_end duration (w ∷ []) = w.end_ms
last_end duration (w ∷ ws) = last_end duration ws

abbrev says : Task → MessageType → Option Payload → Emission
says task t payload = record { request_id = task.req_id; msg_type = t; payload = payload }

abbrev fails : Task → String → String → List Emission
fails task code message = says task error (some (error_data code message)) ∷ []

abbrev asked_language : Task → String
asked_language task = elim task.language [ none ↦ "en" | some l ↦ l ]

module _ (is_file : String → Bool) (wav_duration_ms : String → Option ℕ)
    (whisper : String → Option String → EngineAnswer) (checks : ℕ → Bool) where
  -- `run_transcribe` from the result of the engine on.
  transcribed : Task → ℕ → ℕ → List SegmentWord → String → List Emission
  transcribed task check duration [] lang =
      if checks check
      then says task cancelled none ∷ []
      else fails task "ENGINE_CAPABILITY_INSUFFICIENT" "engine produced no word timestamps"
  transcribed task check duration words lang =
      if checks check
      then says task cancelled none ∷ []
      else let end_ms = last_end duration words in
        let spoken : SegmentData = record {
          text = join_texts words;
          start_ms = 0;
          end_ms = end_ms;
          words = some words;
        } in
        says task language (some (language_data lang))
        ∷ says task segment (some (segment_data spoken))
        ∷ says task progress
            (some (progress_data (some end_ms) (some (max duration end_ms)) (some "done")))
        ∷ says task result
            (some (result_data (some lang) (spoken ∷ []) (some (max duration end_ms))))
        ∷ []

  engine_answer : Task → EngineAnswer
  unfolding fake_transcribe
  engine_answer task =
      if str_eq task.engine "fake"
      then (let r = fake_transcribe (wav_duration_ms task.audio) in
          heard r.0 r.1 (asked_language task))
      else whisper task.audio task.language

  after_engine : Task → ℕ → EngineAnswer → List Emission
  unfolding transcribed
  after_engine task check (heard duration words lang) = transcribed task check duration words lang
  after_engine task check (failed why causes) =
      if contains "cancelled" why
      then says task cancelled none ∷ []
      else if contains "not linked" why
      then fails task "RUNTIME_UNAVAILABLE" why
      else fails task "ASR_FAILED" ("transcription failed: " +s causes)

  transcribe_now : Task → ℕ → List Emission
  unfolding after_engine engine_answer
  transcribe_now task check =
      if checks check
      then says task cancelled none ∷ []
      else after_engine task (check + 1) (engine_answer task)

  -- The injected delay, `left` steps of it from step `i` on.
  delayed : Task → ℕ → ℕ → List Emission
  unfolding transcribe_now
  delayed task zero i = transcribe_now task i
  delayed task (suc left) i =
      if checks i
      then says task cancelled none ∷ []
      else says task progress
          (some (progress_data (some (i * 50)) (some task.inject_delay_ms) (some "waiting")))
        ∷ delayed task left (i + 1)

  unfoldable pub run_transcribe : Task → List Emission
  unfolding delayed
  run_transcribe task =
      if str_eq task.audio ""
      then fails task "INVALID_ARGUMENT" "audio_path required"
      else if not (is_file task.audio)
      then fails task "INPUT_NOT_FOUND" ("audio not found: " +s task.audio)
      else if ltb 0 task.inject_delay_ms
      then delayed task (max (task.inject_delay_ms / 50) 1) 0
      else transcribe_now task 0

-- When the thread ends, a panic of it is reported.
pub end_transcribe : Task → Option String → HelperState → Written
unfolding emit emit_error
end_transcribe task panicked s =
    let free : HelperState = record s { busy = false; cancel_target = none } in
    elim panicked [
      | none ↦ (free, [])
      | some why ↦ emit_error task.req_id "WORKER_CRASHED" why free
    ]

-- The messages as the state numbers them.
unfoldable pub emit_all : List Emission → HelperState → Written
unfolding emit
emit_all [] s = (s, [])
emit_all (e ∷ es) s =
    let first = emit e.request_id e.msg_type e.payload s in
    let rest = emit_all es first.0 in (rest.0, first.1 ++ rest.1)
