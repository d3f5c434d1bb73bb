-- ===== src/Contracts.antt =====
-- crates/contracts/src/error.rs: the stable error codes, their texts and categories.
pub mod Codes
use video_captioner_r.Prelude.{
  DomainError, List, Option, [], already_terminal, batch_profile_mismatch, if◌then◌else◌,
  illegal_transition, lease_conflict, lease_required, member_not_found, none, some, stale_revision,
  str_eq, ℕ, ◌∷◌, String,
}

pub data ErrorCategory : Type 0 where
  recoverable degradable fatal : ErrorCategory

pub data ErrorCode : Type 0 where
  invalid_argument invalid_config config_migration_failed instance_busy : ErrorCode
  input_not_found input_unsupported probe_failed audio_stream_not_found : ErrorCode
  source_changed disk_space_insufficient ffmpeg_unavailable ffmpeg_failed : ErrorCode
  model_not_found model_digest_mismatch runtime_unavailable : ErrorCode
  runtime_smoke_test_failed device_unavailable engine_capability_insufficient : ErrorCode
  option_unsupported worker_busy worker_start_failed worker_protocol_error : ErrorCode
  worker_timeout worker_crashed asr_oom asr_failed timestamp_invalid : ErrorCode
  artifact_corrupt artifact_commit_failed cache_corrupt llm_auth_failed : ErrorCode
  llm_model_not_found llm_rate_limited llm_provider_unavailable : ErrorCode
  llm_context_exceeded llm_invalid_response llm_validation_failed stale_result : ErrorCode
  output_conflict export_validation_failed export_failed cancelled : ErrorCode
  partial_batch_success internal : ErrorCode

pub as_str : ErrorCode → String
as_str ErrorCode.invalid_argument = "INVALID_ARGUMENT"
as_str invalid_config = "INVALID_CONFIG"
as_str config_migration_failed = "CONFIG_MIGRATION_FAILED"
as_str instance_busy = "INSTANCE_BUSY"
as_str input_not_found = "INPUT_NOT_FOUND"
as_str input_unsupported = "INPUT_UNSUPPORTED"
as_str probe_failed = "PROBE_FAILED"
as_str audio_stream_not_found = "AUDIO_STREAM_NOT_FOUND"
as_str source_changed = "SOURCE_CHANGED"
as_str disk_space_insufficient = "DISK_SPACE_INSUFFICIENT"
as_str ffmpeg_unavailable = "FFMPEG_UNAVAILABLE"
as_str ffmpeg_failed = "FFMPEG_FAILED"
as_str model_not_found = "MODEL_NOT_FOUND"
as_str model_digest_mismatch = "MODEL_DIGEST_MISMATCH"
as_str runtime_unavailable = "RUNTIME_UNAVAILABLE"
as_str runtime_smoke_test_failed = "RUNTIME_SMOKE_TEST_FAILED"
as_str device_unavailable = "DEVICE_UNAVAILABLE"
as_str engine_capability_insufficient = "ENGINE_CAPABILITY_INSUFFICIENT"
as_str option_unsupported = "OPTION_UNSUPPORTED"
as_str worker_busy = "WORKER_BUSY"
as_str worker_start_failed = "WORKER_START_FAILED"
as_str worker_protocol_error = "WORKER_PROTOCOL_ERROR"
as_str worker_timeout = "WORKER_TIMEOUT"
as_str worker_crashed = "WORKER_CRASHED"
as_str asr_oom = "ASR_OOM"
as_str asr_failed = "ASR_FAILED"
as_str ErrorCode.timestamp_invalid = "TIMESTAMP_INVALID"
as_str artifact_corrupt = "ARTIFACT_CORRUPT"
as_str artifact_commit_failed = "ARTIFACT_COMMIT_FAILED"
as_str cache_corrupt = "CACHE_CORRUPT"
as_str llm_auth_failed = "LLM_AUTH_FAILED"
as_str llm_model_not_found = "LLM_MODEL_NOT_FOUND"
as_str llm_rate_limited = "LLM_RATE_LIMITED"
as_str llm_provider_unavailable = "LLM_PROVIDER_UNAVAILABLE"
as_str llm_context_exceeded = "LLM_CONTEXT_EXCEEDED"
as_str llm_invalid_response = "LLM_INVALID_RESPONSE"
as_str llm_validation_failed = "LLM_VALIDATION_FAILED"
as_str stale_result = "STALE_RESULT"
as_str output_conflict = "OUTPUT_CONFLICT"
as_str export_validation_failed = "EXPORT_VALIDATION_FAILED"
as_str export_failed = "EXPORT_FAILED"
as_str cancelled = "CANCELLED"
as_str partial_batch_success = "PARTIAL_BATCH_SUCCESS"
as_str internal = "INTERNAL"

pub default_category : ErrorCode → ErrorCategory
default_category worker_timeout = recoverable
default_category worker_crashed = recoverable
default_category asr_oom = recoverable
default_category llm_rate_limited = recoverable
default_category llm_provider_unavailable = recoverable
default_category llm_context_exceeded = recoverable
default_category llm_invalid_response = recoverable
default_category engine_capability_insufficient = degradable
default_category option_unsupported = degradable
default_category llm_validation_failed = degradable
default_category partial_batch_success = degradable
default_category cancelled = fatal
default_category _ = fatal

abbrev all_error_codes : List ErrorCode
all_error_codes =
    ErrorCode.invalid_argument ∷ invalid_config ∷ config_migration_failed ∷ instance_busy
    ∷ input_not_found ∷ input_unsupported ∷ probe_failed ∷ audio_stream_not_found ∷ source_changed
    ∷ disk_space_insufficient ∷ ffmpeg_unavailable ∷ ffmpeg_failed ∷ model_not_found
    ∷ model_digest_mismatch ∷ runtime_unavailable ∷ runtime_smoke_test_failed ∷ device_unavailable
    ∷ engine_capability_insufficient ∷ option_unsupported ∷ worker_busy ∷ worker_start_failed
    ∷ worker_protocol_error ∷ worker_timeout ∷ worker_crashed ∷ asr_oom ∷ asr_failed
    ∷ ErrorCode.timestamp_invalid ∷ artifact_corrupt ∷ artifact_commit_failed ∷ cache_corrupt
    ∷ llm_auth_failed ∷ llm_model_not_found ∷ llm_rate_limited ∷ llm_provider_unavailable
    ∷ llm_context_exceeded ∷ llm_invalid_response ∷ llm_validation_failed ∷ stale_result
    ∷ output_conflict ∷ export_validation_failed ∷ export_failed ∷ cancelled ∷ partial_batch_success
    ∷ internal ∷ []

-- `ALL_ERROR_CODES.iter().copied().find(|c| c.as_str() == s)`.
find_code : String → List ErrorCode → Option ErrorCode
unfolding as_str
find_code s [] = none
find_code s (c ∷ cs) = if str_eq (as_str c) s then some c else find_code s cs

pub parse : String → Option ErrorCode
unfolding find_code
parse s = find_code s all_error_codes

pub record VcError : Type 0 where
  pub code : ErrorCode
  pub category : ErrorCategory
  pub message : String
  pub detail : Option String
  pub job_id : Option String
  pub request_id : Option String
  pub retry_after_ms : Option ℕ

abbrev pub vc_error : ErrorCode → String → VcError
vc_error code message = record {
  code = code;
  category = default_category code;
  message = message;
  detail = none;
  job_id = none;
  request_id = none;
  retry_after_ms = none;
}

-- The code that `From<DomainError>` gives; the message is the domain error's own text.
code_of_domain : DomainError → ErrorCode
code_of_domain (DomainError.invalid_argument m) = ErrorCode.invalid_argument
code_of_domain (DomainError.timestamp_invalid f) = ErrorCode.timestamp_invalid
code_of_domain (illegal_transition a f t) = ErrorCode.invalid_argument
code_of_domain (stale_revision e a) = ErrorCode.stale_result
code_of_domain batch_profile_mismatch = ErrorCode.invalid_argument
code_of_domain (already_terminal a) = ErrorCode.invalid_argument
code_of_domain (member_not_found a i) = ErrorCode.invalid_argument
code_of_domain (lease_conflict m) = ErrorCode.invalid_argument
code_of_domain lease_required = ErrorCode.invalid_argument

-- `VcResult`.
pub data VcResult {ℓ} (A : Type ℓ) : Type ℓ where
  vc_ok : A → VcResult A
  vc_err : VcError → VcResult A
