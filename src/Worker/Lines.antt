-- ===== src/Worker/Lines.antt =====
-- crates/asr/src/worker/protocol_session.rs: messages read as lines. `to_line` is the line that the
-- JSON library writes for a message.
use Prim.Native.String.{len as byte_len}
use video_captioner_r.Worker.{worker_max_line_bytes, Envelope}
use video_captioner_r.Worker.Session.{WorkerProtocolSession, accept_envelope, accept_line}
use video_captioner_r.Worker.History.{Event, message, line, run, step}
use video_captioner_r.Prelude.{
  arith, false, refl, ◌≡◌, ◌≤◌, List, [], ◌∷◌, String, map, All, ltb, ◌⊎◌, inr,
}

module _ {Json : Type 0} (from_ndjson_line : String → String ⊎ Envelope Json)
    (to_line : Envelope Json → String) where
  -- The line of a message is read as the message, and is not longer than 4 MiB.
  abbrev pub Readable : Envelope Json → Type 0
  Readable m =
      (from_ndjson_line (to_line m) ≡ inr m) × (byte_len (to_line m) ≤ worker_max_line_bytes)

  abbrev pub lines : List (Envelope Json) → List (Event Json)
  lines ms = map (λ m. line (to_line m)) ms

  accept_line-to_line :
      (s : WorkerProtocolSession) (m : Envelope Json)
      → Readable m
      → accept_line from_ndjson_line s (to_line m) ≡ accept_envelope s m
  unfolding accept_line accept_envelope
  accept_line-to_line s m (reads, h) =
      let short : ltb worker_max_line_bytes (byte_len (to_line m)) ≡ false = ground arith in
      rw (short, reads, accept_line) (ground arith)

  pub run-lines :
      (s : WorkerProtocolSession) (ms : List (Envelope Json))
      → All Readable ms
      → run from_ndjson_line s (lines ms) ≡ run from_ndjson_line s (map message ms)
  unfolding run step
  run-lines s [] a = refl
  run-lines s (m ∷ ms) (h, a) =
      rw (accept_line-to_line s m h, run-lines (accept_envelope s m).0 ms a) refl
