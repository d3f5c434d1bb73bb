-- ===== src/Worker/Rules.antt =====
-- The protocol of crates/asr/src/worker/protocol_session.rs as rules on who is speaking and whose
-- turn it is, without numbers of messages, for a reader who wants to know what a worker may say.
use video_captioner_r.Worker.{Envelope, MessageType, is_terminal, hello_ok, pong}
use video_captioner_r.Worker.Session.{WorkerProtocolSession, belongs_to_request}
use video_captioner_r.Prelude.{
  Bool, Option, false, if◌then◌else◌, none, some, str_eq, true, ℕ, ◌<◌, ◌≡◌, String,
}

-- Whose turn it is: no request is open, one waits for its answer, one has it.
pub data Turn : Type 0 where
  idle : Turn
  waiting answered : ℕ → Turn

unfoldable pub turn_of : Option ℕ → Bool → Turn
turn_of none done = idle
turn_of (some id) false = waiting id
turn_of (some id) true = answered id

unfoldable pub turn : WorkerProtocolSession → Turn
unfolding turn_of
turn s = turn_of s.active_request_id s.active_request_terminal

-- A request's id may be used while the turn is free, or is its own.
unfoldable pub MayUse : Turn → ℕ → Type 0
MayUse idle id = Unit
MayUse (waiting active) id = active ≡ id
MayUse (answered active) id = ⊥

unfoldable pub Fits : Turn → MessageType → Option ℕ → Type 0
Fits whose t none = belongs_to_request t ≡ false
Fits whose t (some id) = (0 < id) × MayUse whose id

-- What a worker known by `name` may say.
unfoldable pub Allows :
    {Json : Type 0} → Option String → Turn → MessageType → Envelope Json → Type 0
Allows name whose hello_ok message = (name ≡ none) × (str_eq message.session_id "" ≡ false)
Allows name whose pong message = name ≡ some message.session_id
Allows name whose t message = (name ≡ some message.session_id) × Fits whose t message.request_id

unfoldable pub next_name :
    {Json : Type 0} → Option String → MessageType → Envelope Json → Option String
next_name name hello_ok message = some message.session_id
next_name name t message = name

unfoldable pub next_turn : Turn → MessageType → Turn
next_turn (waiting id) t = if is_terminal t then answered id else waiting id
next_turn idle t = idle
next_turn (answered id) t = answered id
