-- ===== src/Worker/Helper/Busy.antt =====
-- crates/whisper-helper/src/session.rs: one transcription at a time.
use video_captioner_r.Worker.{load_model, cancel, Envelope, MessageType, transcribe}
use video_captioner_r.Worker.Helper.{
  HelperState, Handled, Surroundings, handle_line, handle_request, handle_transcribe, handle_load,
  handle_hello, emit, emit_error,
}
use video_captioner_r.Prelude.{Bool, arith, false, is_some, not, ◌&&◌, ◌≡◌, String}

-- How a line bears on the thread that transcribes: it starts one just when it makes the helper busy.
abbrev pub Claims : Bool → Handled → Type 0
Claims busy r =
    (is_some r.task ≡ (not busy && r.written.0.busy)) × ((busy && not r.written.0.busy) ≡ false)

module _ {Json : Type 0} (around : Surroundings Json) where
  load-Claims : (m : Envelope Json) (s : HelperState) → (handle_load around m s).0.busy ≡ s.busy
  unfolding handle_load emit emit_error
  load-Claims m s = ground arith

  transcribe-Claims :
      (m : Envelope Json) (s : HelperState) → Claims s.busy (handle_transcribe around m s)
  unfolding handle_transcribe emit emit_error
  transcribe-Claims m s = ground arith

  cancel-Claims :
      (m : Envelope Json) (s : HelperState) → Claims s.busy (handle_request around cancel m s)
  unfolding handle_request
  cancel-Claims m s = ground arith

  request-Claims :
      (t : MessageType) (m : Envelope Json) (s : HelperState)
      → Claims s.busy (handle_request around t m s)
  unfolding handle_request emit emit_error handle_hello
  request-Claims transcribe m s = transcribe-Claims m s
  request-Claims load_model m s = ground (arith, load-Claims m s)
  request-Claims cancel m s = cancel-Claims m s
  request-Claims t m s = ground arith

  -- A line starts a transcription just when it takes the helper from free to busy, and no line
  -- makes a busy helper free.
  pub line-Claims : (line : String) (s : HelperState) → Claims s.busy (handle_line around line s)
  unfolding handle_line emit emit_error
  line-Claims line s = ground (arith)
