-- ===== src/Worker/Numbering.antt =====
-- crates/asr/src/worker/protocol_session.rs: the numbers of the messages that a session accepts.
use video_captioner_r.Worker.{typed, protocol_version, hello_ok, Envelope, MessageType}
use video_captioner_r.Worker.Session.{
  begin_request, note_terminal, accept_typed, accept_other, accept_line, accept_envelope,
  WorkerProtocolSession,
}
use video_captioner_r.Worker.History.{
  accept_line_cases, step, begin, finish, message, line, Event, answers, Event, run,
}
use video_captioner_r.Prelude.{
  length, subst, ◌++◌, Bool-cases, List, Option-cases, [], arith, inl, inr, refl, u64_max, ℕ, ◌+◌,
  ◌<◌, ◌==◌, ◌∙◌, ◌∷◌, ◌≡◌, ◌≤◌, ◌⊎◌, String,
}

module _ {Json : Type 0} where
  -- The message is the next of the numbering, or none is accepted and at most one number passes.
  abbrev Numbered : ℕ → List (Envelope Json) → ℕ → Type 0
  Numbered from [] next = (from ≤ next) × (next ≤ from + 1)
  Numbered from (m ∷ ms) next = (m.seq ≡ from) × (ms ≡ []) × (next ≡ from + 1)

  accept_typed_keeps :
      (t : MessageType) (s : WorkerProtocolSession) (m : Envelope Json)
      → ((accept_typed t s m).0.next_inbound_seq ≡ s.next_inbound_seq)
  unfolding accept_typed accept_other note_terminal
  accept_typed_keeps hello_ok s m = ground arith
  accept_typed_keeps t s m = ground arith

  accept_typed_answer :
      (t : MessageType) (s : WorkerProtocolSession) (m : Envelope Json)
      → (answers (accept_typed t s m).1 ≡ []) ⊎ (answers (accept_typed t s m).1 ≡ m ∷ [])
  unfolding accept_typed accept_other note_terminal
  accept_typed_answer hello_ok s m = ground arith
  accept_typed_answer t s m = ground arith

  accept_typed-Numbered :
      (t : MessageType) (s : WorkerProtocolSession) (m : Envelope Json) (from : ℕ)
      → m.seq ≡ from
      → s.next_inbound_seq ≡ from + 1
      → Numbered from (answers (accept_typed t s m).1) (accept_typed t s m).0.next_inbound_seq
  accept_typed-Numbered t s m from e h = elim (accept_typed_answer t s m) [
    | inl none_heard ↦ rw none_heard (omega (arith, accept_typed_keeps t s m))
    | inr heard ↦ rw heard (e, refl, accept_typed_keeps t s m ∙ h)
  ]

  accept_envelope-Numbered :
      (s : WorkerProtocolSession) (m : Envelope Json)
      → s.next_inbound_seq < u64_max
      → Numbered s.next_inbound_seq
          (answers (accept_envelope s m).1)
          (accept_envelope s m).0.next_inbound_seq
  unfolding accept_envelope
  accept_envelope-Numbered s m h = elim (Bool-cases s.terminated) [
    | inl e ↦ rw (e, accept_envelope) (omega arith)
    | inr e ↦ elim (Bool-cases (m.version == protocol_version)) [
      | inr f ↦ rw (e, f, accept_envelope) (omega arith)
      | inl f ↦ elim (Bool-cases (m.seq == s.next_inbound_seq)) [
        | inr g ↦ rw (e, f, g, accept_envelope) (omega arith)
        | inl g ↦ elim (Option-cases (typed m)) [
          | inl k ↦ rw (e, f, g, k, accept_envelope) (omega arith)
          | inr (t, k) ↦
              rw (e, f, g, k, accept_envelope)
                (accept_typed-Numbered t _ m s.next_inbound_seq (ground arith) (omega arith))
        ]
      ]
    ]
  ]

  -- Numbers from `from` on, each above the one before.
  unfoldable pub Ascends : ℕ → List (Envelope Json) → Type 0
  Ascends from [] = Unit
  Ascends from (m ∷ ms) = (from ≤ m.seq) × Ascends (m.seq + 1) ms

  Ascends-weaken :
      (from to : ℕ) (ms : List (Envelope Json)) → from ≤ to → Ascends to ms → Ascends from ms
  unfolding Ascends
  Ascends-weaken from to [] h a = tt
  Ascends-weaken from to (m ∷ ms) h (le, a) = (omega arith, a)

  append-Ascends :
      (from : ℕ) (heard : List (Envelope Json)) (next : ℕ) (later : List (Envelope Json))
      → Numbered from heard next
      → (next ≤ from + 1 → Ascends next later)
      → Ascends from (heard ++ later)
  unfolding Ascends
  append-Ascends from [] next later (le, ge) rest = Ascends-weaken from next later le (rest ge)
  append-Ascends from (m ∷ []) next later (e, none_more, f) rest =
      (omega arith, subst (λ k. Ascends k later) (omega arith) (rest (omega arith)))
  append-Ascends from (m ∷ n ∷ ms) next later (e, none_more, f) rest = absurd (cc)

  module _ (from_ndjson_line : String → String ⊎ Envelope Json) where
    accept_line-Numbered :
        (s : WorkerProtocolSession) (l : String)
        → s.next_inbound_seq < u64_max
        → Numbered s.next_inbound_seq
            (answers (accept_line from_ndjson_line s l).1)
            (accept_line from_ndjson_line s l).0.next_inbound_seq
    accept_line-Numbered s l h = elim (accept_line_cases from_ndjson_line s l) [
      | inl (why, e) ↦ rw e (omega arith)
      | inr (m, e) ↦ rw e (accept_envelope-Numbered s m h)
    ]

    step-Numbered :
        (s : WorkerProtocolSession) (e : Event Json)
        → s.next_inbound_seq < u64_max
        → Numbered s.next_inbound_seq
            (step from_ndjson_line s e).1
            (step from_ndjson_line s e).0.next_inbound_seq
    unfolding step begin_request
    step-Numbered s (begin id) h = ground arith
    step-Numbered s finish h = omega arith
    step-Numbered s (message m) h = accept_envelope-Numbered s m h
    step-Numbered s (line l) h = accept_line-Numbered s l h

    -- In any history whose calls do not exhaust the numbers, the numbers of the accepted
    -- messages rise, from the one expected at first.
    pub run-Ascends :
        (s : WorkerProtocolSession) (es : List (Event Json))
        → s.next_inbound_seq + length es ≤ u64_max
        → Ascends s.next_inbound_seq (run from_ndjson_line s es).1
    unfolding run Ascends
    run-Ascends s [] h = tt
    run-Ascends s (e ∷ es) h =
        append-Ascends s.next_inbound_seq (step from_ndjson_line s e).1
          (step from_ndjson_line s e).0.next_inbound_seq
          (run from_ndjson_line (step from_ndjson_line s e).0 es).1
          (step-Numbered s e (omega arith))
          λ le. run-Ascends (step from_ndjson_line s e).0 es (omega arith)
