-- ===== src/Lib.antt =====
-- VideoCaptionerR turns media files into subtitles: a batch holds jobs, a job runs seven stages
-- from probing to export, a stage may be cut into work units that workers lease, and the transcript
-- in the middle is split, corrected and translated by a language model. This library models the
-- parts that decide what happens, and proves what holds in every history of their operations.
--
-- Parts and files (paths from the repository's root):
--   crates/domain/src/workflow/stage.rs, job.rs    Workflow/Stage, Workflow/Job: the stages of a
--     job and its operations. Job/Stages and Job/Lifecycle hold the operations, Job/Machine makes
--     them commands of one machine; the files below prove its order, errors, ends and retries.
--   crates/domain/src/workflow/work_unit.rs        Workflow/WorkUnit: leases, budgets, recovery.
--   crates/domain/src/workflow/batch.rs, event.rs  Workflow/Batch: the jobs of a batch, their
--     outcomes and the event that announces its end.
--   crates/domain/src/subtitle/transcript.rs       Subtitle/Word, Subtitle/Transcript: words, cues
--     and validation; Transcript/Edits and Transcript/Split hold the operations.
--   crates/domain/src/subtitle/text_joiner.rs      Subtitle/Joiner: the text of a cue.
--   crates/domain/src/subtitle/split.rs            Subtitle/RuleSplit: the split by rules;
--     RuleSplit/Ranges holds the ranges and the cues.
--   crates/core/src/use_cases/retry_job.rs         UseCases/Retry: the explicit retry of a job, over
--     the ports of the store; UseCases/Results has crates/core/src/application_error.rs.
--   crates/core/src/use_cases/llm_pipeline         UseCases/Pipeline: packing.rs in Packing, the
--     halving of refused batches in Isolation, validation.rs in Checks, and the retry loop of
--     service.rs with agent.rs in Requests, whose outcomes are in Calls; Covered joins them, and
--     Similarity has the edit distance by its recursion.
--   crates/asr/src/normalize.rs                    Asr/Normalize: from raw speech results to words.
--   crates/core/src/chunking.rs                    Chunking: plans of chunks for long audio.
--   crates/llm/src/circuit.rs                      Llm/Circuit: the circuit breaker of a provider.
--   crates/contracts/src/protocol.rs, crates/asr/src/worker/protocol_session.rs   Worker,
--     Worker/Session: the messages of a speech worker and the session that accepts them;
--     Worker/Rules says what the protocol allows.
--   crates/whisper-helper/src/{protocol,session,fake_engine}.rs   Worker/Helper,
--     Worker/Transcription: the worker itself; Worker/Writers has its threads, Worker/Dialogue joins
--     it to the session, whose lines are in Worker/Lines.
--   crates/platform/src/subtitle_io/time.rs        SubtitleIo/Time: times of subtitle files.
--   crates/contracts/src/error.rs, crates/domain/src/error.rs   Contracts, Prelude/Results: error
--     codes, their categories and the results of fallible code.
-- Prelude holds what they share: Boolean tests, saturating arithmetic, lists measured by native
-- numbers, results, sets as lists, bit patterns of floats, and the choice of a least element.
-- The modules called Examples apply the theorems to concrete states.
--
-- Conventions. A method on `&mut self` is a function to the state it leaves behind and its result;
-- a method on `&self` that answers a new value is a function to a `Result`. A panic is an outcome
-- of its own. Integers are natural numbers with the saturation or the cast of the code written
-- out; an `f32` is its bit pattern. A message that contains numbers is kept as those numbers. A
-- getter is a field of the record. The code keeps an aggregate of the domain, a session and a
-- breaker behind one owner or one lock, so a history is a list of commands, and interleavings are
-- the orders of that list. The two threads of the helper write without a lock around the number
-- and the line: Worker/Writers has these two steps, and schedules of them.
--
-- Parameters: NFC normalisation (`nfc`), the blake3 hash of a plan (`hash`), the text of an
-- instant (`show_instant`), the call of a provider (`inner`), the JSON library
-- (`from_ndjson_line`, `to_line`, and the fields of `Surroundings`), and the whisper engine with
-- the files it reads; the products with the float ratios of the split (`prefix_words`,
-- `suffix_words`), the version of the package, and the ports of a use case (`Ports`, `Round`),
-- each with the answer it gives; in the LLM pipeline the JSON library (`from_str`, `decode`), the
-- messages that open a batch and the text of an error, and three float computations (`quotient`,
-- `with_margin`, `is_below`). The clock is an argument, and so are the answers to a thread that
-- asks whether it is cancelled.
--
-- Fuel: the loop of `ChunkPlan::build` runs on fuel, one more than the milliseconds of the audio;
-- each round moves on by the minimum chunk length, which is at least 1. `split_oversized` has as much
-- fuel as its group has words: both halves are shorter, and a single word is not split. Packing
-- makes a round for each cue at most, as no batch is empty; the halving of a batch makes fewer than
-- twice as many as it has cues, and the requests for one batch fewer than its attempts and three.
-- A number is written with at most twenty digits, which are enough for a `u64`.
--
-- Not modelled: the store (SQL), the processes of the workers, media tools, HTTP, configuration, the
-- command line, the desktop application, serialisation, and the asynchronous use cases that call
-- the parts above, but for the retry of a job and the requests of the LLM pipeline, whose waits,
-- request records and durable plans are left out.
pub mod Prelude
pub mod Contracts
pub mod Workflow
pub mod Subtitle
pub mod Chunking
pub mod Llm
pub mod Worker
pub mod SubtitleIo
pub mod UseCases
pub mod Asr
