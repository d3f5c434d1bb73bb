-- ===== src/Worker/History.antt =====
-- crates/asr/src/worker/protocol_session.rs: any sequence of calls on a session.
use Prim.Native.String.{len as byte_len}
use video_captioner_r.Worker.{worker_max_line_bytes, Envelope}
use video_captioner_r.Worker.Session.{
  line_too_long, invalid_json, already_terminated, Fault, refused, accepted, WorkerProtocolSession,
  accept_envelope, accept_line, begin_request, end_request, Answer,
}
use video_captioner_r.Prelude.{
  Bool-cases, Sum-cases, arith, inl, inr, ltb, true, ◌≡◌, List, [], ℕ, ◌++◌, ◌∷◌, ◌⊎◌, String,
}

pub data Event (Json : Type 0) : Type 0 where
  begin : ℕ → Event Json
  finish : Event Json
  message : Envelope Json → Event Json
  line : String → Event Json

abbrev pub answers {ℓ} : {A : Type ℓ} → Answer A → List A
answers (refused why) = []
answers (accepted a) = a ∷ []

module _ {Json : Type 0} (from_ndjson_line : String → String ⊎ Envelope Json) where
  unfoldable pub step :
      WorkerProtocolSession → Event Json → WorkerProtocolSession × List (Envelope Json)
  step s (begin id) = ((begin_request id s).0, [])
  step s finish = (end_request s, [])
  step s (message m) = let r = accept_envelope s m in (r.0, answers r.1)
  step s (line l) = let r = accept_line from_ndjson_line s l in (r.0, answers r.1)

  -- The session, and the messages that it has accepted.
  unfoldable pub run :
      WorkerProtocolSession → List (Event Json) → WorkerProtocolSession × List (Envelope Json)
  unfolding step
  run s [] = (s, [])
  run s (e ∷ es) = let r = step s e in let rest = run r.0 es in (rest.0, r.1 ++ rest.1)

  -- A line is refused before it is a message, and ends the session, or is taken as its message.
  pub accept_line_cases :
      (s : WorkerProtocolSession) (l : String)
      → ((why : Fault) × (accept_line from_ndjson_line s l
            ≡ (record s { terminated = true }, refused why)))
        ⊎ ((m : Envelope Json) × (accept_line from_ndjson_line s l ≡ accept_envelope s m))
  unfolding accept_line
  accept_line_cases s l = elim (Bool-cases s.terminated) [
    | inl e ↦ inl (already_terminated, ground arith)
    | inr e ↦ elim (Bool-cases (ltb worker_max_line_bytes (byte_len l))) [
      | inl f ↦ inl (line_too_long, ground arith)
      | inr f ↦ elim (Sum-cases (from_ndjson_line l)) [
        | inl (why, g) ↦ inl (invalid_json why, ground arith)
        | inr (m, g) ↦ inr (m, ground arith)
      ]
    ]
  ]
