-- ===== src/Worker/Refusals.antt =====
-- crates/asr/src/worker/protocol_session.rs: what a refusal leaves behind.
use video_captioner_r.Worker.{typed, protocol_version, pong, hello_ok, Envelope, MessageType}
use video_captioner_r.Worker.Session.{
  session_mismatch, require_stable_session, refused, note_terminal, no_session, begin_request,
  accept_typed, accept_other, accept_line, accept_envelope, WorkerProtocolSession, Fault,
}
use video_captioner_r.Worker.History.{
  Event, begin, finish, message, line, run, step, accept_line_cases,
}
use video_captioner_r.Prelude.{
  Bool, Bool-cases, List, Option-cases, [], arith, false, inl, inr, refl, some, sym, true, ◌==◌,
  ◌||◌, ◌∙◌, ◌∷◌, ◌≡◌, ◌⊎◌, String,
}

-- The two faults by which the code refuses without ending the session.
abbrev of_other_session : Fault → Bool
of_other_session no_session = true
of_other_session (session_mismatch got want) = true
of_other_session _ = false

-- What a refusal leaves: the request and the name as they were, and a session that has ended or
-- has met a message of another session.
pub record Refuses (why : Fault) (s s' : WorkerProtocolSession) : Type 0 where
  pub ends_or_other : (s'.terminated || of_other_session why) ≡ true
  pub request_stays : s'.active_request_id ≡ s.active_request_id
  pub flag_stays : s'.active_request_terminal ≡ s.active_request_terminal
  pub name_stays : s'.session_id ≡ s.session_id

module _ {Json : Type 0} where
  require_refused :
      (s : WorkerProtocolSession) (m : Envelope Json) (why : Fault)
      → require_stable_session s m ≡ some why
      → of_other_session why ≡ true
  unfolding require_stable_session
  require_refused s m why h = ground arith

  accept_other-refused :
      (t : MessageType) (s s' : WorkerProtocolSession) (m : Envelope Json) (why : Fault)
      → accept_other t s m ≡ (s', refused why)
      → Refuses why s s'
  unfolding accept_other note_terminal
  accept_other-refused t s s' m why h = ground (arith, require_refused s m why)

  accept_typed-refused :
      (t : MessageType) (s s' : WorkerProtocolSession) (m : Envelope Json) (why : Fault)
      → accept_typed t s m ≡ (s', refused why)
      → Refuses why s s'
  unfolding accept_typed
  accept_typed-refused hello_ok s s' m why h = ground arith
  accept_typed-refused pong s s' m why h = ground (arith, require_refused s m why)
  accept_typed-refused t s s' m why h = accept_other-refused t s s' m why h

  pub accept_envelope-Refuses :
      (s s' : WorkerProtocolSession) (m : Envelope Json) (why : Fault)
      → accept_envelope s m ≡ (s', refused why)
      → Refuses why s s'
  unfolding accept_envelope
  accept_envelope-Refuses s s' m why h = elim (Bool-cases s.terminated) [
    | inl e ↦ ground (arith, rw (e, accept_envelope) at h)
    | inr e ↦ elim (Bool-cases (m.version == protocol_version)) [
      | inr f ↦ ground (arith, rw (e, f, accept_envelope) at h)
      | inl f ↦ elim (Bool-cases (m.seq == s.next_inbound_seq)) [
        | inr g ↦ ground (arith, rw (e, f, g, accept_envelope) at h)
        | inl g ↦ elim (Option-cases (typed m)) [
          | inl k ↦ ground (arith, rw (e, f, g, k, accept_envelope) at h)
          | inr (t, k) ↦
              let r = accept_typed-refused t _ s' m why (rw (e, f, g, k, accept_envelope) at h) in
              record {
                ends_or_other = r.ends_or_other;
                request_stays = r.request_stays;
                flag_stays = r.flag_stays;
                name_stays = r.name_stays;
              }
        ]
      ]
    ]
  ]

  module _ (from_ndjson_line : String → String ⊎ Envelope Json) where
    -- A refused line ends the session, unless it is a message of another session or before the
    -- handshake, and leaves the request, its flag and the name as they were.
    pub accept_line-Refuses :
        (s s' : WorkerProtocolSession) (l : String) (why : Fault)
        → accept_line from_ndjson_line s l ≡ (s', refused why)
        → Refuses why s s'
    accept_line-Refuses s s' l why h = elim (accept_line_cases from_ndjson_line s l) [
      | inl (why', e) ↦ ground (arith, sym e ∙ h)
      | inr (m, e) ↦ accept_envelope-Refuses s s' m why (sym e ∙ h)
    ]

    closed_step :
        (s : WorkerProtocolSession) (e : Event Json)
        → s.terminated ≡ true
        → ((step from_ndjson_line s e).1 ≡ []) × ((step from_ndjson_line s e).0.terminated ≡ true)
    unfolding step begin_request accept_envelope accept_line
    closed_step s (begin id) h = ground arith
    closed_step s finish h = (refl, h)
    closed_step s (message m) h = ground arith
    closed_step s (line l) h = ground arith

    -- A session that has ended accepts nothing more and stays ended, whatever calls follow.
    pub closed_stays :
        (s : WorkerProtocolSession) (es : List (Event Json))
        → s.terminated ≡ true
        → ((run from_ndjson_line s es).1 ≡ []) × ((run from_ndjson_line s es).0.terminated ≡ true)
    unfolding run
    closed_stays s [] h = (refl, h)
    closed_stays s (e ∷ es) h =
        let (quiet, closed) = closed_step s e h in
        let (rest, still) = closed_stays (step from_ndjson_line s e).0 es closed in
        (rw (quiet, rest) refl, still)
