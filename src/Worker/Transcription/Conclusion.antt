-- ===== src/Worker/Transcription/Conclusion.antt =====
-- crates/whisper-helper/src/session.rs: every transcription has one end.
use video_captioner_r.Worker.{is_terminal}
use video_captioner_r.Worker.Session.{belongs_to_request}
use video_captioner_r.Worker.Helper.{Task, SegmentWord}
use video_captioner_r.Worker.Transcription.{
  Emission, EngineAnswer, transcribed, transcribe_now, delayed, run_transcribe, engine_answer,
  after_engine, heard, failed, contains,
}
use video_captioner_r.Prelude.{
  Bool-cases, inl, inr, Bool, List, Option, [], arith, false, if◌then◌else◌, max, none, some, suc,
  true, zero, ℕ, ◌&&◌, ◌+◌, ◌/◌, ◌==◌, ◌∷◌, ◌≡◌, String,
}

abbrev pub of_request : ℕ → Option ℕ → Bool
of_request id none = false
of_request id (some used) = id == used

abbrev pub is_empty : List Emission → Bool
is_empty [] = true
is_empty (e ∷ es) = false

-- Every message has the request's id and a type that needs it, the last one is terminal, and no other.
abbrev pub concludes : ℕ → List Emission → Bool
concludes id [] = false
concludes id (e ∷ es) =
    of_request id e.request_id
    && (belongs_to_request e.msg_type
        && (if is_terminal e.msg_type then is_empty es else concludes id es))

module _ (is_file : String → Bool) (wav_duration_ms : String → Option ℕ)
    (whisper : String → Option String → EngineAnswer) (checks : ℕ → Bool) where
  transcribed-concludes :
      (task : Task) (id check duration : ℕ) (words : List SegmentWord) (lang : String)
      → task.req_id ≡ some id
      → concludes id
          (transcribed is_file wav_duration_ms whisper checks task check duration words lang)
        ≡ true
  unfolding transcribed
  transcribed-concludes task id check duration [] lang h = ground arith
  transcribed-concludes task id check duration (w ∷ ws) lang h = ground arith

  after_engine-concludes :
      (task : Task) (id check : ℕ) (answer : EngineAnswer)
      → task.req_id ≡ some id
      → concludes id (after_engine is_file wav_duration_ms whisper checks task check answer) ≡ true
  unfolding after_engine
  after_engine-concludes task id check (heard duration words lang) h =
      transcribed-concludes task id check duration words lang h
  after_engine-concludes task id check (failed why causes) h =
      elim (Bool-cases (contains "cancelled" why)) [
        | inl e ↦ rw (e, after_engine) (ground arith)
        | inr e ↦ elim (Bool-cases (contains "not linked" why)) [
          | inl f ↦ rw (e, f, after_engine) (ground arith)
          | inr f ↦ rw (e, f, after_engine) (ground arith)
        ]
      ]

  transcribe_now-concludes :
      (task : Task) (id check : ℕ)
      → task.req_id ≡ some id
      → concludes id (transcribe_now is_file wav_duration_ms whisper checks task check) ≡ true
  unfolding transcribe_now
  transcribe_now-concludes task id check h = ground (
    arith,
    after_engine-concludes task id (check + 1)
        (engine_answer is_file wav_duration_ms whisper checks task),
  )

  delayed-concludes :
      (task : Task) (id left i : ℕ)
      → task.req_id ≡ some id
      → concludes id (delayed is_file wav_duration_ms whisper checks task left i) ≡ true
  unfolding delayed
  delayed-concludes task id zero i h = transcribe_now-concludes task id i h
  delayed-concludes task id (suc left) i h = ground (arith, delayed-concludes task id left (i + 1))

  pub run_transcribe-concludes :
      (task : Task) (id : ℕ)
      → task.req_id ≡ some id
      → concludes id (run_transcribe is_file wav_duration_ms whisper checks task) ≡ true
  unfolding run_transcribe
  run_transcribe-concludes task id h = ground (
    arith,
    delayed-concludes task id (max (task.inject_delay_ms / 50) 1) 0,
    transcribe_now-concludes task id 0,
  )
