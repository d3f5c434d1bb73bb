-- ===== src/Worker.antt =====
-- crates/contracts/src/protocol.rs: the messages between the application and its speech workers.
-- `Json` stands for the values of the JSON library, which the code passes on unread.
pub mod Session
pub mod Rules
pub mod Typed
pub mod Refinement
pub mod History
pub mod Numbering
pub mod Refusals
pub mod Exchange
pub mod Helper
pub mod Transcription
pub mod Writers
pub mod Lines
pub mod Dialogue
mod Examples
use video_captioner_r.Prelude.{
  ltb, ◌+◌, Bool, Option, false, if◌then◌else◌, none, refl, some, str_eq, true, ℕ, ◌*◌, ◌≡◌, String,
}

pub data MessageType : Type 0 where
  hello ping load_model transcribe cancel unload_model shutdown : MessageType
  hello_ok pong progress segment language result error cancelled log : MessageType

unfoldable pub as_str : MessageType → String
as_str hello = "hello"
as_str ping = "ping"
as_str load_model = "load_model"
as_str transcribe = "transcribe"
as_str cancel = "cancel"
as_str unload_model = "unload_model"
as_str shutdown = "shutdown"
as_str hello_ok = "hello_ok"
as_str pong = "pong"
as_str progress = "progress"
as_str segment = "segment"
as_str language = "language"
as_str result = "result"
as_str error = "error"
as_str cancelled = "cancelled"
as_str log = "log"

abbrev pub is_terminal : MessageType → Bool
is_terminal result = true
is_terminal error = true
is_terminal cancelled = true
is_terminal _ = false

unfoldable pub parse : String → Option MessageType
parse s =
    if str_eq s "hello"
    then some hello
    else if str_eq s "ping"
    then some ping
    else if str_eq s "load_model"
    then some load_model
    else if str_eq s "transcribe"
    then some transcribe
    else if str_eq s "cancel"
    then some cancel
    else if str_eq s "unload_model"
    then some unload_model
    else if str_eq s "shutdown"
    then some shutdown
    else if str_eq s "hello_ok"
    then some hello_ok
    else if str_eq s "pong"
    then some pong
    else if str_eq s "progress"
    then some progress
    else if str_eq s "segment"
    then some segment
    else if str_eq s "language"
    then some language
    else if str_eq s "result"
    then some result
    else if str_eq s "error"
    then some error
    else if str_eq s "cancelled"
    then some cancelled
    else if str_eq s "log"
    then some log
    else none

abbrev pub protocol_version : ℕ
protocol_version = 1

abbrev pub worker_max_line_bytes : ℕ
worker_max_line_bytes = 4 * 1024 * 1024

pub record Envelope (Json : Type 0) : Type 0 where
  pub version : ℕ
  pub session_id : String
  pub request_id : Option ℕ
  pub seq : ℕ
  pub msg_type : String
  pub payload : Option Json

module _ {Json : Type 0} where
  unfoldable pub new : String → Option ℕ → ℕ → MessageType → Option Json → Envelope Json
  unfolding as_str
  new session_id request_id seq msg_type payload = record {
    version = protocol_version;
    session_id = session_id;
    request_id = request_id;
    seq = seq;
    msg_type = as_str msg_type;
    payload = payload;
  }

  unfoldable pub typed : Envelope Json → Option MessageType
  typed message = parse message.msg_type

-- Reading the text of a message type gives the type back.
pub parse-as_str : (t : MessageType) → parse (as_str t) ≡ some t
unfolding parse as_str
parse-as_str hello = refl
parse-as_str _ = refl
