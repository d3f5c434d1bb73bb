-- ===== src/Worker/Dialogue.antt =====
-- A whole exchange: what the worker of crates/whisper-helper writes for a transcription, read by
-- the session of crates/asr/src/worker/protocol_session.rs.
use video_captioner_r.Worker.{
  pong, is_terminal, hello_ok, Envelope, MessageType, new, typed, parse-as_str,
}
use video_captioner_r.Worker.Session.{
  belongs_to_request, WorkerProtocolSession, accepted, accept_envelope,
}
use video_captioner_r.Worker.Typed.{heard, heard_other}
use video_captioner_r.Worker.Rules.{turn, turn_of, Allows, Fits, MayUse}
use video_captioner_r.Worker.Refinement.{counted, IsNext, allowed_accepted}
use video_captioner_r.Worker.History.{message, run, step}
use video_captioner_r.Worker.Helper.{Task, Payload, HelperState, emit}
use video_captioner_r.Worker.Transcription.{Emission, EngineAnswer, emit_all, run_transcribe}
use video_captioner_r.Worker.Transcription.Conclusion.{
  concludes, of_request, is_empty, run_transcribe-concludes,
}
use video_captioner_r.Worker.Writers.{
  Writer, run_writers, in_turn, idle, emissions, run_writers-in_turn,
}
use video_captioner_r.Worker.Lines.{Readable, lines, run-lines}
use video_captioner_r.Prelude.{
  All, Bool-cases, Option, inl, inr, ap, length, map, ◌+◌, ◌≤◌, ◌⊎◌, Bool, List, [], arith, false,
  refl, some, sym, true, u64_max, ℕ, ◌<◌, ◌∙◌, ◌∷◌, ◌≡◌, String,
}

-- The answers to pings may come between the messages of a transcription.
pub data Mixes : List Emission → List Emission → Type 0 where
  nothing : Mixes [] []
  own : (e : Emission) {xs ys : List Emission} → Mixes xs ys → Mixes (e ∷ xs) (e ∷ ys)
  ping_answer :
      (e : Emission) {xs ys : List Emission} → e.msg_type ≡ pong → Mixes xs ys → Mixes xs (e ∷ ys)

-- The session knows the helper, waits for a request's answer or has it, and expects the number that
-- the helper writes next.
pub record Hears (id : ℕ) (done : Bool) (s : WorkerProtocolSession) (h : HelperState) : Type 0 where
  pub is_open : s.terminated ≡ false
  pub knows : s.session_id ≡ some h.session_id
  pub waits : s.active_request_id ≡ some id
  pub has_answer : s.active_request_terminal ≡ done
  pub counts : s.next_inbound_seq ≡ h.seq_out

abbrev emitted : Emission → HelperState → Envelope Payload
emitted e h = new h.session_id e.request_id h.seq_out e.msg_type e.payload

typed-emitted : (e : Emission) (h : HelperState) → typed (emitted e h) ≡ some e.msg_type
unfolding typed new
typed-emitted e h = parse-as_str e.msg_type

module _ (id : ℕ) (done : Bool) (s : WorkerProtocolSession) (h : HelperState) where
  IsNext-emitted : (e : Emission) → Hears id done s h → IsNext s (emitted e h)
  unfolding new
  IsNext-emitted e k = record {
    open_session = k.is_open;
    version_fits = refl;
    seq_fits = sym k.counts;
  }

  pong_heard :
      (e : Emission)
      → Hears id done s h
      → h.seq_out < u64_max
      → e.msg_type ≡ pong
      → (accept_envelope s (emitted e h) ≡ (counted s, accepted (emitted e h)))
        × Hears id done (counted s) (emit e.request_id e.msg_type e.payload h).0
  unfolding Allows emit new
  pong_heard e k small is_pong = (
    allowed_accepted s (emitted e h) pong (IsNext-emitted e k) (typed-emitted e h ∙ ap some is_pong)
        k.knows,
    record {
      is_open = k.is_open;
      knows = k.knows;
      waits = k.waits;
      has_answer = k.has_answer;
      counts = ground (arith, k.counts);
    },
  )

Allows-own :
    (id : ℕ) (s : WorkerProtocolSession) (t : MessageType) (m : Envelope Payload)
    → belongs_to_request t ≡ true
    → s.session_id ≡ some m.session_id
    → s.active_request_id ≡ some id
    → s.active_request_terminal ≡ false
    → m.request_id ≡ some id
    → 0 < id
    → Allows s.session_id (turn s) t m × (heard t m (counted s) ≡ heard_other t (counted s))
unfolding Allows Fits turn turn_of MayUse
Allows-own id s hello_ok m b n a f r p = cc
Allows-own id s pong m b n a f r p = cc
Allows-own id s t m b n a f r p = ((n, rw (r, a, f) (p, refl)), refl)

own_heard :
    (id : ℕ) (s : WorkerProtocolSession) (h : HelperState) (e : Emission)
    → Hears id false s h
    → h.seq_out < u64_max
    → 0 < id
    → of_request id e.request_id ≡ true
    → belongs_to_request e.msg_type ≡ true
    → (accept_envelope s (emitted e h)
        ≡ (heard_other e.msg_type (counted s), accepted (emitted e h)))
      × Hears id
          (is_terminal e.msg_type)
          (heard_other e.msg_type (counted s))
          (emit e.request_id e.msg_type e.payload h).0
unfolding emit new
own_heard id s h e k small positive same belongs =
    let (allows, is_other) =
      Allows-own id s e.msg_type (emitted e h) belongs k.knows k.waits k.has_answer (ground arith)
        positive in
    (
      allowed_accepted s (emitted e h) e.msg_type (IsNext-emitted id false s h e k)
            (typed-emitted e h) allows
          ∙ rw is_other refl,
      record {
        is_open = k.is_open;
        knows = k.knows;
        waits = k.waits;
        has_answer = ground (arith, k.waits, k.has_answer);
        counts = ground (arith, k.counts);
      },
    )

-- What is left to be written for the request.
abbrev left : ℕ → Bool → List Emission → Bool
left id true es = is_empty es
left id false es = concludes id es

first_concludes :
    (id : ℕ) (e : Emission) (es : List Emission)
    → concludes id (e ∷ es) ≡ true
    → (of_request id e.request_id ≡ true)
      × (belongs_to_request e.msg_type ≡ true)
      × (left id (is_terminal e.msg_type) es ≡ true)
first_concludes id e es h = elim (Bool-cases (is_terminal e.msg_type)) [
  | inl t ↦ rw t (ground (arith, rw t at h))
  | inr t ↦ rw t (ground (arith, rw t at h))
]

module _ (from_ndjson_line : String → String ⊎ Envelope Payload) where
  abbrev reads :
      WorkerProtocolSession
      → List (Envelope Payload)
      → WorkerProtocolSession × List (Envelope Payload)
  reads s ms = run from_ndjson_line s (map message ms)

  read_step :
      (s s' : WorkerProtocolSession) (m : Envelope Payload) (ms : List (Envelope Payload))
      → accept_envelope s m ≡ (s', accepted m)
      → (reads s (m ∷ ms)).1 ≡ m ∷ (reads s' ms).1
  unfolding run step
  read_step s s' m ms h = rw h refl

  all_heard :
      (id : ℕ) (done : Bool) (s : WorkerProtocolSession) (h : HelperState)
      {es mixed : List Emission}
      → 0 < id
      → Mixes es mixed
      → Hears id done s h
      → h.seq_out + length mixed ≤ u64_max
      → left id done es ≡ true
      → ((reads s (emit_all mixed h).1).1 ≡ (emit_all mixed h).1)
        × Hears id true (reads s (emit_all mixed h).1).0 (emit_all mixed h).0
  unfolding emit_all run step emit
  all_heard id true s h positive nothing k small rest = (refl, k)
  all_heard id false s h positive nothing k small rest = absurd (cc)
  all_heard id done s h positive (ping_answer e {xs} {ys} is_pong mix) k small rest =
      let (heard_it, k') = pong_heard id done s h e k (omega arith) is_pong in
      let (later, ends) =
        all_heard id done (counted s) (emit e.request_id e.msg_type e.payload h).0 positive mix k'
          (omega arith) rest in
      rw heard_it (ap (◌∷◌ (emitted e h)) later, ends)
  all_heard id true s h positive (own e {xs} {ys} mix) k small rest = absurd (cc)
  all_heard id false s h positive (own e {xs} {ys} mix) k small rest =
      let first = first_concludes id e xs rest in
      let (heard_it, k') = own_heard id s h e k (omega arith) positive first.0 first.1 in
      let (later, ends) =
        all_heard id (is_terminal e.msg_type) (heard_other e.msg_type (counted s))
          (emit e.request_id e.msg_type e.payload h).0 positive mix k' (omega arith) first.2 in
      rw heard_it (ap (◌∷◌ (emitted e h)) later, ends)

  module _ (to_line : Envelope Payload → String) where
    -- Whatever the engine answers, however a cancellation falls and whatever answers to pings
    -- come between, a session that waits for a request accepts every line that the helper
    -- writes for it, in order, and then has its answer, if each message is written before
    -- another thread takes a number, no message number overflows, and each line is read back as
    -- its message and not longer than 4 MiB.
    pub transcription_heard :
        (is_file : String → Bool) (wav_duration_ms : String → Option ℕ)
        (whisper : String → Option String → EngineAnswer) (checks : ℕ → Bool) (task : Task) (id : ℕ)
        (s : WorkerProtocolSession) (h : HelperState) (es : List (Writer × Emission))
        → task.req_id ≡ some id
        → 0 < id
        → Hears id false s h
        → Mixes (run_transcribe is_file wav_duration_ms whisper checks task) (emissions es)
        → h.seq_out + length (emissions es) ≤ u64_max
        → All (Readable from_ndjson_line to_line) (run_writers (in_turn es) (idle h)).1
        → let (writers, written) = run_writers (in_turn es) (idle h) in
          let read = run from_ndjson_line s (lines from_ndjson_line to_line written) in
          (read.1 ≡ written) × Hears id true read.0 writers.helper
    transcription_heard is_file wav_duration_ms whisper checks task id s h es e positive k mix small
          readable =
        let mixed = emissions es in
        let made = run_writers-in_turn es h in
        let fit = rw made at readable in
        rw made (
          rw (run-lines from_ndjson_line to_line s (emit_all mixed h).1 fit) (
            all_heard id false s h positive mix k small
              (run_transcribe-concludes is_file wav_duration_ms whisper checks task id e)))
