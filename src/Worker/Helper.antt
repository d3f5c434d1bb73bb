-- ===== src/Worker/Helper.antt =====
-- crates/whisper-helper/src/{protocol,session}.rs: the isolated speech worker, and its answers to
-- the lines that it reads.
-- The JSON library reads requests of type `Json`; what the helper writes is a `Payload`, before it
-- is turned into JSON. The whisper engine and the file system are parameters. Writing succeeds.
pub mod Busy
use Prim.Native.Char.{code}
use Prim.Native.String.{len as byte_len, [] as empty, ◌∷◌ as ◌∷s◌}
use mathlib.Core.Option
use video_captioner_r.Worker.{
  worker_max_line_bytes, unload_model, typed, transcribe, shutdown, result, protocol_version, pong,
  ping, load_model, hello_ok, hello, error, cancel, as_str, Envelope, MessageType, new,
}
use video_captioner_r.Prelude.{
  map, Bool, List, Option, [], false, if◌then◌else◌, inl, inr, ltb, none, not, some, str_eq, true,
  ℕ, ◌%◌, ◌&&◌, ◌+s◌, ◌+◌, ◌==◌, ◌^◌, ◌||◌, ◌∷◌, ◌⊎◌, String,
}

pub record SegmentWord : Type 0 where
  pub text : String
  pub start_ms : ℕ
  pub end_ms : ℕ
  pub prob : ℕ

pub record SegmentData : Type 0 where
  pub text : String
  pub start_ms : ℕ
  pub end_ms : ℕ
  pub words : Option (List SegmentWord)

pub record HelloData : Type 0 where
  pub engine_id : String
  pub adapter_version : String
  pub runtime_version : String
  pub devices : List String
  pub native_vad : Bool
  pub language_detection : Bool
  pub streaming_events : Bool
  pub cooperative_cancel : Bool
  pub max_audio_secs : Option ℕ
  pub timestamp_granularity : Option String
  pub confidence_kind : Option String

pub data Payload : Type 0 where
  hello_data : HelloData → Payload
  progress_data : Option ℕ → Option ℕ → Option String → Payload
  language_data : String → Payload
  segment_data : SegmentData → Payload
  result_data : Option String → List SegmentData → Option ℕ → Payload
  error_data : String → String → Payload
  result_loaded result_unloaded result_shutdown : Payload

pub record HelperState : Type 0 where
  pub session_id : String
  pub engine : String
  pub seq_out : ℕ
  pub busy : Bool
  pub cancel_target : Option ℕ
  pub model_loaded : Bool
  pub model_path : Option String
  pub device : String
  pub compute_type : String

-- `session_id` is a new ULID.
abbrev pub new_helper : String → String → HelperState
new_helper session_id engine = record {
  session_id = session_id;
  engine = engine;
  seq_out = 0;
  busy = false;
  cancel_target = none;
  model_loaded = false;
  model_path = none;
  device = "cpu";
  compute_type = "default";
}

-- What has been written is a list of messages. The counter wraps around.
abbrev pub Written : Type 0
Written = HelperState × List (Envelope Payload)

-- `next_seq`, a step of its own: the number is taken before the lock of the output.
abbrev pub next_seq : HelperState → HelperState × ℕ
next_seq s = (record s { seq_out = (s.seq_out + 1) % 2 ^ 64 }, s.seq_out)

-- As one thread does it, with no other inside: Worker/Writers has its two steps.
unfoldable pub emit : Option ℕ → MessageType → Option Payload → HelperState → Written
unfolding new
emit request_id t payload s =
    let (next, seq) = next_seq s in (next, new s.session_id request_id seq t payload ∷ [])

unfoldable pub emit_error : Option ℕ → String → String → HelperState → Written
unfolding emit
emit_error request_id code message s = emit request_id error (some (error_data code message)) s

abbrev pub is_cancelled : Option ℕ → HelperState → Bool
is_cancelled request_id s = elim s.cancel_target [
  | none ↦ false
  | some target ↦ elim request_id [ none ↦ false | some id ↦ id == target ]
]

-- `trim_end_matches(['\r', '\n'])`.
abbrev trim_line : String → String
trim_line empty = empty
trim_line (c ∷s s) =
    let rest = trim_line s in
    if str_eq rest "" && (code c == 13 || code c == 10) then empty else c ∷s rest

-- A request for the thread that transcribes.
pub record Task : Type 0 where
  pub req_id : Option ℕ
  pub audio : String
  pub language : Option String
  pub inject_delay_ms : ℕ
  pub engine : String

-- What a line leads to: the state and what is written, the thread that is started, and whether the
-- session goes on.
pub record Handled : Type 0 where
  pub written : Written
  pub task : Option Task
  pub goes_on : Bool

abbrev pub goes : Written → Handled
goes w = record { written = w; task = none; goes_on = true }

-- What the helper asks of the JSON library, of the engine, of the file system and of the build.
pub record Surroundings (Json : Type 0) : Type 0 where
  pub from_ndjson_line : String → String ⊎ Envelope Json
  pub str_field : String → Json → Option String
  pub u64_field : String → Json → Option ℕ
  pub cancel_data : Json → Option ℕ
  pub is_file : String → Bool
  pub load_error : String → Option String
  pub runtime_version : String
  pub package_version : String
  pub show : ℕ → String

module _ {Json : Type 0} (around : Surroundings Json) where
  -- The fields of `env.data`, which is an empty object where it is missing.
  abbrev field : {A : Type 0} → (String → Json → Option A) → String → Envelope Json → Option A
  field get name m = Option.bind m.payload (get name)

  unfoldable pub handle_hello : Envelope Json → HelperState → Written
  unfolding emit
  handle_hello m s =
      let fake = str_eq s.engine "fake" in
      let said : HelloData = record {
        engine_id = if fake then "fake-helper" else "whisper-cpp";
        adapter_version = around.package_version;
        runtime_version = if fake then "fake" else around.runtime_version;
        devices = "cpu" ∷ [];
        native_vad = false;
        language_detection = true;
        streaming_events = true;
        cooperative_cancel = true;
        max_audio_secs = some 3600;
        timestamp_granularity = some "word";
        confidence_kind = some "word_prob";
      } in
      emit m.request_id hello_ok (some (hello_data said)) s

  -- The engine refuses a model.
  abbrev load_fault : Option String → HelperState → Option (String × String)
  load_fault path s = if str_eq s.engine "fake" then none else elim path [
    | none ↦ some ("MODEL_NOT_FOUND", "model_path required")
    | some p ↦
        if not (around.is_file p)
        then some ("MODEL_NOT_FOUND", "model not found: " +s p)
        else Option.map (λ why. ("RUNTIME_SMOKE_TEST_FAILED", "model load failed: " +s why))
            (around.load_error p)
  ]

  abbrev or_keep : Option String → String → String
  or_keep none old = old
  or_keep (some value) old = value

  unfoldable pub handle_load : Envelope Json → HelperState → Written
  unfolding emit emit_error
  handle_load m s =
      if s.busy
      then emit_error m.request_id "WORKER_BUSY" "worker is busy" s
      else let path = field around.str_field "model_path" m in
        let tuned : HelperState = record s {
          device = or_keep (field around.str_field "device" m) s.device;
          compute_type = or_keep (field around.str_field "compute_type" m) s.compute_type;
        } in
        elim (load_fault path s) [
          | some fault ↦ emit_error m.request_id fault.0 fault.1 tuned
          | none ↦
              emit m.request_id result (some result_loaded)
                (record tuned { model_path = path; model_loaded = true })
        ]

  abbrev or_empty : Option String → String
  or_empty none = ""
  or_empty (some value) = value

  abbrev or_zero : Option ℕ → ℕ
  or_zero none = 0
  or_zero (some value) = value

  unfoldable pub handle_transcribe : Envelope Json → HelperState → Handled
  unfolding emit_error
  handle_transcribe m s =
      if s.busy
      then goes (emit_error m.request_id "WORKER_BUSY" "transcription already active" s)
      else if not s.model_loaded && not (str_eq s.engine "fake")
      then goes (emit_error m.request_id "MODEL_NOT_FOUND" "model not loaded" s)
      else record {
        written = (record s { busy = true }, []);
        task = some (record {
          req_id = m.request_id;
          audio = or_empty (field around.str_field "audio_path" m);
          language = field around.str_field "language" m;
          inject_delay_ms = or_zero (field around.u64_field "inject_delay_ms" m);
          engine = s.engine;
        });
        goes_on = true;
      }

  unfoldable pub handle_request : MessageType → Envelope Json → HelperState → Handled
  unfolding emit emit_error handle_hello handle_load handle_transcribe
  handle_request hello m s = goes (handle_hello m s)
  handle_request ping m s = goes (emit m.request_id pong none s)
  handle_request load_model m s = goes (handle_load m s)
  handle_request unload_model m s = goes (
      emit m.request_id result (some result_unloaded)
        (record s { model_loaded = false; model_path = none }))
  handle_request transcribe m s = handle_transcribe m s
  handle_request cancel m s = elim (Option.bind m.payload around.cancel_data) [
    | none ↦ goes (s, [])
    | some target ↦ goes (record s { cancel_target = some target }, [])
  ]
  handle_request shutdown m s = record {
    written = emit m.request_id result (some result_shutdown) s;
    task = none;
    goes_on = false;
  }
  handle_request t m s =
      goes (
        emit_error m.request_id "WORKER_PROTOCOL_ERROR" ("unexpected request type: " +s as_str t) s)

  unfoldable pub handle_line : String → HelperState → Handled
  unfolding handle_request emit_error
  handle_line line s =
      if ltb worker_max_line_bytes (byte_len line)
      then goes (emit_error none "WORKER_PROTOCOL_ERROR" "line exceeds 4 MiB" s)
      else if str_eq (trim_line line) ""
      then goes (s, [])
      else elim (around.from_ndjson_line (trim_line line)) [
        | inl why ↦ goes (emit_error none "WORKER_PROTOCOL_ERROR" ("invalid json: " +s why) s)
        | inr m ↦
            if not (m.version == protocol_version)
            then goes (
                emit_error m.request_id "WORKER_PROTOCOL_ERROR"
                  ("protocol_version mismatch: got " +s around.show m.version +s ", want 1") s)
            else elim (typed m) [
              | none ↦ goes (
                  emit_error m.request_id "WORKER_PROTOCOL_ERROR"
                    ("unknown message type: " +s m.msg_type) s)
              | some t ↦ handle_request t m s
            ]
      ]
