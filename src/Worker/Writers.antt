-- ===== src/Worker/Writers.antt =====
-- crates/whisper-helper/src/protocol.rs, session.rs: two threads that write. `emit` takes a number
-- and writes its line behind it, in two steps; a thread is inside one `emit` at a time.
use video_captioner_r.Worker.{Envelope, new}
use video_captioner_r.Worker.Helper.{HelperState, Payload, next_seq, emit}
use video_captioner_r.Worker.Transcription.{Emission, emit_all}
use video_captioner_r.Prelude.{refl, ◌∷◌, ◌≡◌, List, Option, none, some, []}

-- The thread that reads lines, and the one that transcribes.
pub data Writer : Type 0 where
  main_thread task_thread : Writer

pub data EmitStep : Type 0 where
  takes : Writer → Emission → EmitStep
  writes : Writer → EmitStep

-- The helper, and the message that each thread has numbered and not yet written.
pub record Writers : Type 0 where
  pub helper : HelperState
  pub main_holds : Option (Envelope Payload)
  pub task_holds : Option (Envelope Payload)

abbrev pub idle : HelperState → Writers
idle h = record { helper = h; main_holds = none; task_holds = none }

abbrev held : Writer → Writers → Option (Envelope Payload)
held main_thread w = w.main_holds
held task_thread w = w.task_holds

abbrev hold : Writer → Option (Envelope Payload) → Writers → Writers
hold main_thread m w = record w { main_holds = m }
hold task_thread m w = record w { task_holds = m }

-- The state behind a schedule of steps, and the messages in the order of their lines.
unfoldable pub run_writers : List EmitStep → Writers → Writers × List (Envelope Payload)
unfolding new
run_writers [] w = (w, [])
run_writers (takes t e ∷ steps) w =
    let (next, seq) = next_seq w.helper in
    run_writers steps (
      hold t (some (new w.helper.session_id e.request_id seq e.msg_type e.payload))
        (record w { helper = next }))
run_writers (writes t ∷ steps) w =
    let rest = run_writers steps (hold t none w) in
    elim (held t w) [ none ↦ rest | some m ↦ (rest.0, m ∷ rest.1) ]

-- The schedule in which every message is written before another number is taken.
abbrev pub in_turn : List (Writer × Emission) → List EmitStep
in_turn [] = []
in_turn ((t, e) ∷ es) = takes t e ∷ writes t ∷ in_turn es

abbrev pub emissions : List (Writer × Emission) → List Emission
emissions [] = []
emissions ((t, e) ∷ es) = e ∷ emissions es

-- It writes what one thread alone would.
pub run_writers-in_turn :
    (es : List (Writer × Emission)) (h : HelperState)
    → run_writers (in_turn es) (idle h)
      ≡ (idle (emit_all (emissions es) h).0, (emit_all (emissions es) h).1)
unfolding run_writers emit_all emit
run_writers-in_turn [] h = refl
run_writers-in_turn ((main_thread, e) ∷ es) h = rw (run_writers-in_turn es (next_seq h).0) refl
run_writers-in_turn ((task_thread, e) ∷ es) h = rw (run_writers-in_turn es (next_seq h).0) refl
