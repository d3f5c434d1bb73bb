-- ===== src/Worker/Typed.antt =====
-- crates/asr/src/worker/protocol_session.rs: what the session does with a message, by its type.
use video_captioner_r.Worker.{
  result, pong, is_terminal, hello_ok, hello, error, cancelled, Envelope, MessageType,
}
use video_captioner_r.Worker.Session.{
  require_stable_session, request_fault, note_terminal, belongs_to_request, accepted, accept_typed,
  accept_other, WorkerProtocolSession,
}
use video_captioner_r.Worker.Rules.{turn_of, MayUse, Fits, Allows, turn}
use video_captioner_r.Prelude.{
  Bool-cases, Option-cases, arith, false, inl, inr, is_some, none, refl, some, str_eq_iff,
  str_eq_refl, true, ◌&&◌, ◌||◌, ◌≡◌,
}

-- Every terminal message belongs to a request.
pub belongs_of_terminal :
    (t : MessageType) → is_terminal t ≡ true → belongs_to_request t ≡ false → ⊥
belongs_of_terminal hello ends h = cc
belongs_of_terminal result ends h = cc
belongs_of_terminal error ends h = cc
belongs_of_terminal cancelled ends h = cc
belongs_of_terminal _ ends h = cc

-- The session behind an accepted message, beside its count of messages.
abbrev pub heard_other : MessageType → WorkerProtocolSession → WorkerProtocolSession
heard_other t s = record s {
  active_request_terminal =
      (is_terminal t && is_some s.active_request_id) || s.active_request_terminal;
}

module _ {Json : Type 0} where
  stable :
      (s : WorkerProtocolSession) (message : Envelope Json)
      → require_stable_session s message ≡ none
      → s.session_id ≡ some message.session_id
  unfolding require_stable_session
  stable s message h = elim (Option-cases s.session_id) [
    | inl e ↦ absurd (ground (arith, rw (e, require_stable_session) at h))
    | inr (name, e) ↦
        rw e
          (ground (arith, rw (e, require_stable_session) at h, str_eq_iff message.session_id name))
  ]

  fits :
      (s : WorkerProtocolSession) (message : Envelope Json) (t : MessageType)
      → request_fault s message t ≡ none
      → Fits (turn s) t message.request_id
  unfolding request_fault Fits turn turn_of MayUse
  fits s message t h = elim (Option-cases message.request_id) [
    | inl e ↦ rw e (ground (arith, rw (e, request_fault) at h))
    | inr (id, e) ↦ elim (Option-cases s.active_request_id) [
      | inl f ↦ rw (e, f) (ground (arith, rw (e, f, request_fault) at h))
      | inr (active, f) ↦ elim (Bool-cases s.active_request_terminal) [
        | inl g ↦ absurd (ground (arith, rw (e, f, g, request_fault) at h))
        | inr g ↦ rw (e, f, g) (ground (arith, rw (e, f, g, request_fault) at h))
      ]
    ]
  ]

  abbrev pub heard : MessageType → Envelope Json → WorkerProtocolSession → WorkerProtocolSession
  heard hello_ok message s = record s { session_id = some message.session_id }
  heard pong message s = s
  heard t message s = heard_other t s

  note_terminal-heard :
      (t : MessageType) (s s' : WorkerProtocolSession) (message answer : Envelope Json)
      → is_terminal t ≡ true
      → note_terminal s message ≡ (s', accepted answer)
      → (answer ≡ message) × (s' ≡ heard_other t s)
  unfolding note_terminal
  note_terminal-heard t s s' message answer ends h = elim (Option-cases s.active_request_id) [
    | inl e ↦ ground (arith, rw (e, note_terminal) at h)
    | inr (active, e) ↦ ground (arith, rw (e, note_terminal) at h)
  ]

  accept_other-heard :
      (t : MessageType) (s s' : WorkerProtocolSession) (message answer : Envelope Json)
      → accept_other t s message ≡ (s', accepted answer)
      → (answer ≡ message)
        × (s' ≡ heard_other t s)
        × (s.session_id ≡ some message.session_id)
        × Fits (turn s) t message.request_id
  unfolding accept_other
  accept_other-heard t s s' message answer h =
      elim (Option-cases (require_stable_session s message)) [
        | inr (why, e) ↦ absurd (ground (arith, rw (e, accept_other) at h))
        | inl e ↦ elim (Option-cases (request_fault s message t)) [
          | inr (why, f) ↦ absurd (ground (arith, rw (e, f, accept_other) at h))
          | inl f ↦ elim (Bool-cases (is_terminal t)) [
            | inl g ↦
                let (same, next) =
                  note_terminal-heard t s s' message answer g (rw (e, f, g, accept_other) at h) in
                (same, next, stable s message e, fits s message t f)
            | inr g ↦ (
              ground (arith, rw (e, f, g, accept_other) at h),
              ground (arith, rw (e, f, g, accept_other) at h),
              stable s message e,
              fits s message t f,
            )
          ]
        ]
      ]

  pub accept_typed-heard :
      (t : MessageType) (s s' : WorkerProtocolSession) (message answer : Envelope Json)
      → accept_typed t s message ≡ (s', accepted answer)
      → (answer ≡ message) × (s' ≡ heard t message s) × Allows s.session_id (turn s) t message
  unfolding accept_typed Allows
  accept_typed-heard hello_ok s s' message answer h = elim (Option-cases s.session_id) [
    | inr (name, e) ↦ absurd (ground (arith, rw (e, accept_typed) at h))
    | inl e ↦ ground (arith, rw (e, accept_typed) at h)
  ]
  accept_typed-heard pong s s' message answer h =
      elim (Option-cases (require_stable_session s message)) [
        | inr (why, e) ↦ absurd (ground (arith, rw (e, accept_typed) at h))
        | inl e ↦ ground (arith, rw (e, accept_typed) at h, stable s message e)
      ]
  accept_typed-heard t s s' message answer h =
      let (same, next, named, fit) = accept_other-heard t s s' message answer h in
      (same, next, (named, fit))

  allowed-require :
      (s : WorkerProtocolSession) (message : Envelope Json)
      → s.session_id ≡ some message.session_id
      → require_stable_session s message ≡ none
  unfolding require_stable_session
  allowed-require s message e = rw (e, require_stable_session) (rw (str_eq_refl message.session_id))

  allowed-request :
      (s : WorkerProtocolSession) (message : Envelope Json) (t : MessageType)
      → Fits (turn s) t message.request_id
      → request_fault s message t ≡ none
  unfolding request_fault Fits turn turn_of MayUse
  allowed-request s message t h = elim (Option-cases message.request_id) [
    | inl e ↦ rw (e, request_fault) (ground (arith, rw e at h))
    | inr (id, e) ↦ elim (Option-cases s.active_request_id) [
      | inl f ↦ rw (e, f, request_fault) (ground (arith, rw (e, f) at h))
      | inr (active, f) ↦ elim (Bool-cases s.active_request_terminal) [
        | inl g ↦ absurd (ground (arith, rw (e, f, g) at h))
        | inr g ↦ rw (e, f, g, request_fault) (ground (arith, rw (e, f, g) at h))
      ]
    ]
  ]

  allowed-terminal :
      (s : WorkerProtocolSession) (message : Envelope Json) (t : MessageType)
      → is_terminal t ≡ true
      → Fits (turn s) t message.request_id
      → note_terminal s message ≡ (heard_other t s, accepted message)
  unfolding note_terminal Fits turn turn_of MayUse
  allowed-terminal s message t ends h = elim (Option-cases message.request_id) [
    | inl e ↦ absurd (belongs_of_terminal t ends (rw e at h))
    | inr (id, e) ↦ elim (Option-cases s.active_request_id) [
      | inl f ↦ rw (f, note_terminal) (ground (arith, f, ends))
      | inr (active, f) ↦ elim (Bool-cases s.active_request_terminal) [
        | inl g ↦ absurd (ground (arith, rw (e, f, g) at h))
        | inr g ↦ rw (e, f, g, note_terminal) (ground (arith, rw (e, f, g) at h))
      ]
    ]
  ]

  allowed-other :
      (t : MessageType) (s : WorkerProtocolSession) (message : Envelope Json)
      → s.session_id ≡ some message.session_id
      → Fits (turn s) t message.request_id
      → accept_other t s message ≡ (heard_other t s, accepted message)
  unfolding accept_other
  allowed-other t s message named fit = elim (Bool-cases (is_terminal t)) [
    | inl ends ↦
        rw (allowed-require s message named, accept_other)
          (rw (allowed-request s message t fit, accept_other)
            (rw (ends, accept_other) (rw ends at (allowed-terminal s message t ends fit))))
    | inr goes ↦
        rw (allowed-require s message named, accept_other)
          (rw (allowed-request s message t fit, accept_other) (rw (goes, accept_other) refl))
  ]

  pub allowed-typed :
      (t : MessageType) (s : WorkerProtocolSession) (message : Envelope Json)
      → Allows s.session_id (turn s) t message
      → accept_typed t s message ≡ (heard t message s, accepted message)
  unfolding accept_typed Allows
  allowed-typed hello_ok s message (unnamed, named) =
      rw (unnamed, accept_typed) (rw (named, accept_typed) refl)
  allowed-typed pong s message named = rw (allowed-require s message named, accept_typed) refl
  allowed-typed t s message (named, fit) = allowed-other t s message named fit
