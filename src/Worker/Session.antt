-- ===== src/Worker/Session.antt =====
-- crates/asr/src/worker/protocol_session.rs: what the application accepts from a worker.
-- An error is its cause: each has the code WORKER_PROTOCOL_ERROR, and a text rendered from the
-- cause's values. Reading a line as JSON is a parameter.
use Prim.Native.String.{len as byte_len}
use video_captioner_r.Worker.{
  worker_max_line_bytes, typed, segment, result, protocol_version, progress, pong, language,
  is_terminal, hello_ok, error, cancelled, MessageType, Envelope,
}
use video_captioner_r.Prelude.{
  Bool, Option, false, if◌then◌else◌, inl, inr, is_some, ltb, none, not, sat_add_u64, some, str_eq,
  true, ℕ, ◌&&◌, ◌==◌, ◌⊎◌, String,
}

pub data Fault : Type 0 where
  already_terminated request_active line_too_long : Fault
  invalid_json : String → Fault
  version_mismatch : ℕ → Fault
  seq_not_increasing : ℕ → ℕ → Fault
  unknown_type : String → Fault
  duplicate_hello_ok empty_session_id no_session : Fault
  session_mismatch : String → String → Fault
  zero_request_id : Fault
  after_terminal : ℕ → Fault
  cross_request : ℕ → ℕ → Fault
  request_id_missing : MessageType → Fault
  foreign_terminal : Option ℕ → ℕ → Fault
  duplicate_terminal : ℕ → Fault

pub data Answer {ℓ} (A : Type ℓ) : Type ℓ where
  refused : Fault → Answer A
  accepted : A → Answer A

pub record WorkerProtocolSession : Type 0 where
  pub session_id : Option String
  pub next_inbound_seq : ℕ
  pub active_request_id : Option ℕ
  pub active_request_terminal : Bool
  pub terminated : Bool

abbrev pub new : WorkerProtocolSession
new = record {
  session_id = none;
  next_inbound_seq = 0;
  active_request_id = none;
  active_request_terminal = false;
  terminated = false;
}

unfoldable pub begin_request : ℕ → WorkerProtocolSession → WorkerProtocolSession × Answer (Unit {0})
begin_request id s =
    if s.terminated
    then (s, refused already_terminated)
    else if is_some s.active_request_id && not s.active_request_terminal
    then (s, refused request_active)
    else (record s { active_request_id = some id; active_request_terminal = false }, accepted tt)

abbrev pub end_request : WorkerProtocolSession → WorkerProtocolSession
end_request s = record s { active_request_id = none; active_request_terminal = false }

-- The types that need a request id.
abbrev pub belongs_to_request : MessageType → Bool
belongs_to_request progress = true
belongs_to_request segment = true
belongs_to_request language = true
belongs_to_request result = true
belongs_to_request error = true
belongs_to_request cancelled = true
belongs_to_request _ = false

abbrev is_request : ℕ → Option ℕ → Bool
is_request active none = false
is_request active (some id) = id == active

module _ {Json : Type 0} where
  abbrev pub fail : Fault → WorkerProtocolSession → WorkerProtocolSession × Answer (Envelope Json)
  fail why s = (record s { terminated = true }, refused why)

  -- The test itself leaves the session as it is.
  unfoldable pub require_stable_session : WorkerProtocolSession → Envelope Json → Option Fault
  require_stable_session s message = elim s.session_id [
    | none ↦ some no_session
    | some expected ↦
        if str_eq message.session_id expected
        then none
        else some (session_mismatch message.session_id expected)
  ]

  unfoldable pub request_fault : WorkerProtocolSession → Envelope Json → MessageType → Option Fault
  request_fault s message t = elim message.request_id [
    | none ↦ if belongs_to_request t then some (request_id_missing t) else none
    | some id ↦ if id == 0 then some zero_request_id else elim s.active_request_id [
      | none ↦ none
      | some active ↦
          if active == id
          then if s.active_request_terminal then some (after_terminal id) else none
          else some (cross_request id active)
    ]
  ]

  unfoldable pub note_terminal :
      WorkerProtocolSession → Envelope Json → WorkerProtocolSession × Answer (Envelope Json)
  note_terminal s message = elim s.active_request_id [
    | none ↦ (s, accepted message)
    | some active ↦
        if not (is_request active message.request_id)
        then fail (foreign_terminal message.request_id active) s
        else if s.active_request_terminal
        then fail (duplicate_terminal active) s
        else (record s { active_request_terminal = true }, accepted message)
  ]

  -- Every type but `hello_ok` and `pong`.
  unfoldable pub accept_other :
      MessageType
      → WorkerProtocolSession
      → Envelope Json
      → WorkerProtocolSession × Answer (Envelope Json)
  unfolding require_stable_session request_fault note_terminal
  accept_other t s message = elim (require_stable_session s message) [
    | some why ↦ (s, refused why)
    | none ↦ elim (request_fault s message t) [
      | some why ↦ fail why s
      | none ↦ if is_terminal t then note_terminal s message else (s, accepted message)
    ]
  ]

  unfoldable pub accept_typed :
      MessageType
      → WorkerProtocolSession
      → Envelope Json
      → WorkerProtocolSession × Answer (Envelope Json)
  unfolding require_stable_session accept_other
  accept_typed hello_ok s message =
      if is_some s.session_id
      then fail duplicate_hello_ok s
      else if str_eq message.session_id ""
      then fail empty_session_id s
      else (record s { session_id = some message.session_id }, accepted message)
  accept_typed pong s message = elim (require_stable_session s message) [
    | some why ↦ (s, refused why)
    | none ↦ (s, accepted message)
  ]
  accept_typed t s message = accept_other t s message

  unfoldable pub accept_envelope :
      WorkerProtocolSession → Envelope Json → WorkerProtocolSession × Answer (Envelope Json)
  unfolding accept_typed typed
  accept_envelope s message =
      if s.terminated
      then (s, refused already_terminated)
      else if not (message.version == protocol_version)
      then fail (version_mismatch message.version) s
      else if not (message.seq == s.next_inbound_seq)
      then fail (seq_not_increasing s.next_inbound_seq message.seq) s
      else let counted : WorkerProtocolSession = record s {
        next_inbound_seq = sat_add_u64 s.next_inbound_seq 1;
      } in
        elim (typed message) [
          | none ↦ fail (unknown_type message.msg_type) counted
          | some t ↦ accept_typed t counted message
        ]

  -- `from_ndjson_line` gives the error's text or the message.
  unfoldable pub accept_line :
      (from_ndjson_line : String → String ⊎ Envelope Json)
      → WorkerProtocolSession
      → String
      → WorkerProtocolSession × Answer (Envelope Json)
  unfolding accept_envelope
  accept_line from_ndjson_line s line =
      if s.terminated
      then (s, refused already_terminated)
      else if ltb worker_max_line_bytes (byte_len line)
      then fail line_too_long s
      else elim (from_ndjson_line line) [
        | inl why ↦ fail (invalid_json why) s
        | inr message ↦ accept_envelope s message
      ]
