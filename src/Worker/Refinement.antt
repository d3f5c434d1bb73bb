-- ===== src/Worker/Refinement.antt =====
-- crates/asr/src/worker/protocol_session.rs: the session against the rules of the protocol.
use video_captioner_r.Worker.{typed, protocol_version, pong, hello_ok, Envelope, MessageType}
use video_captioner_r.Worker.Session.{
  accepted, accept_typed, accept_envelope, WorkerProtocolSession,
}
use video_captioner_r.Worker.Rules.{turn_of, next_turn, next_name, Allows, turn}
use video_captioner_r.Worker.Typed.{heard_other, allowed-typed, accept_typed-heard, heard}
use video_captioner_r.Prelude.{
  Bool-cases, Option-cases, ap, arith, false, inl, inr, refl, sat_add_u64, some, ◌==◌, ◌∙◌, ◌≡◌,
}

abbrev pub counted : WorkerProtocolSession → WorkerProtocolSession
counted s = record s { next_inbound_seq = sat_add_u64 s.next_inbound_seq 1 }

turn-heard_other :
    (t : MessageType) (s : WorkerProtocolSession) → turn (heard_other t s) ≡ next_turn (turn s) t
unfolding turn turn_of next_turn
turn-heard_other t s = elim (Option-cases s.active_request_id) [
  | inl e ↦ rw e refl
  | inr (id, e) ↦ elim (Bool-cases s.active_request_terminal) [
    | inl f ↦ rw (e, f) (ground arith)
    | inr f ↦ rw (e, f) (ground arith)
  ]
]

module _ {Json : Type 0} where
  -- What an accepted message must be.
  pub record IsNext (s : WorkerProtocolSession) (message : Envelope Json) : Type 0 where
    pub open_session : s.terminated ≡ false
    pub version_fits : message.version ≡ protocol_version
    pub seq_fits : message.seq ≡ s.next_inbound_seq

  pub accept_envelope-heard :
      (s s' : WorkerProtocolSession) (message answer : Envelope Json)
      → accept_envelope s message ≡ (s', accepted answer)
      → (t : MessageType) × (typed message ≡ some t)
        × (answer ≡ message)
        × (s' ≡ heard t message (counted s))
        × IsNext s message
        × Allows s.session_id (turn s) t message
  unfolding accept_envelope turn
  accept_envelope-heard s s' message answer h = elim (Bool-cases s.terminated) [
    | inl e ↦ absurd (ground (arith, rw (e, accept_envelope) at h))
    | inr e ↦ elim (Bool-cases (message.version == protocol_version)) [
      | inr f ↦ absurd (ground (arith, rw (e, f, accept_envelope) at h))
      | inl f ↦ elim (Bool-cases (message.seq == s.next_inbound_seq)) [
        | inr g ↦ absurd (ground (arith, rw (e, f, g, accept_envelope) at h))
        | inl g ↦ elim (Option-cases (typed message)) [
          | inl k ↦ absurd (ground (arith, rw (e, f, g, k, accept_envelope) at h))
          | inr (t, k) ↦
              let (same, next, allowed) =
                accept_typed-heard t (counted s) s' message answer
                  (rw (e, f, g, k, accept_envelope) at h) in
              (
                t,
                k,
                same,
                next,
                record { open_session = e; version_fits = ground arith; seq_fits = ground arith },
                allowed,
              )
        ]
      ]
    ]
  ]

  turn-heard :
      (t : MessageType) (message : Envelope Json) (s : WorkerProtocolSession)
      → turn (heard t message (counted s)) ≡ next_turn (turn s) t
  unfolding turn next_turn
  turn-heard hello_ok message s = turn-heard_other hello_ok s
  turn-heard pong message s = turn-heard_other pong s
  turn-heard t message s = turn-heard_other t s

  fields-heard :
      (t : MessageType) (message : Envelope Json) (s : WorkerProtocolSession)
      → ((heard t message s).session_id ≡ next_name s.session_id t message)
        × ((heard t message s).next_inbound_seq ≡ s.next_inbound_seq)
        × ((heard t message s).terminated ≡ s.terminated)
  unfolding next_name
  fields-heard hello_ok message s = (refl, refl, refl)
  fields-heard pong message s = (refl, refl, refl)
  fields-heard t message s = (refl, refl, refl)

  -- A message that the session accepts is allowed by the rules of the protocol to a worker of
  -- that name at that turn, moves name and turn as the rules say, and is unchanged; the session
  -- was and stays open, and the message has the expected number.
  pub accept_envelope-Allows :
      (s s' : WorkerProtocolSession) (message answer : Envelope Json)
      → accept_envelope s message ≡ (s', accepted answer)
      → (t : MessageType) × (typed message ≡ some t)
        × (answer ≡ message)
        × Allows s.session_id (turn s) t message
        × (s'.session_id ≡ next_name s.session_id t message)
        × (turn s' ≡ next_turn (turn s) t)
        × (message.seq ≡ s.next_inbound_seq)
        × (s'.next_inbound_seq ≡ sat_add_u64 s.next_inbound_seq 1)
        × (s.terminated ≡ false)
        × (s'.terminated ≡ false)
  accept_envelope-Allows s s' message answer h =
      let (t, k, same, next, is_next, allowed) = accept_envelope-heard s s' message answer h in
      let (named, counts, stays) = fields-heard t message (counted s) in
      (
        t,
        k,
        same,
        allowed,
        ap (λ (u : WorkerProtocolSession). u.session_id) next ∙ named,
        ap turn next ∙ turn-heard t message s,
        is_next.seq_fits,
        ap (λ (u : WorkerProtocolSession). u.next_inbound_seq) next ∙ counts,
        is_next.open_session,
        ap (λ (u : WorkerProtocolSession). u.terminated) next ∙ (stays ∙ is_next.open_session),
      )

  counted-accepts :
      (s : WorkerProtocolSession) (message : Envelope Json) (t : MessageType)
      → IsNext s message
      → typed message ≡ some t
      → accept_envelope s message ≡ accept_typed t (counted s) message
  unfolding accept_envelope
  counted-accepts s message t next k = ground (arith, k)

  -- An open session accepts each message of its version, with the expected number and of a
  -- known type, that the rules of the protocol allow.
  pub allowed_accepted :
      (s : WorkerProtocolSession) (message : Envelope Json) (t : MessageType)
      → IsNext s message
      → typed message ≡ some t
      → Allows s.session_id (turn s) t message
      → accept_envelope s message ≡ (heard t message (counted s), accepted message)
  unfolding turn
  allowed_accepted s message t next k allowed =
      counted-accepts s message t next k ∙ allowed-typed t (counted s) message allowed
