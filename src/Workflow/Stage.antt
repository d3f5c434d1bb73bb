-- ===== src/Workflow/Stage.antt =====
-- crates/domain/src/workflow/stage.rs: the stages of a job and their statuses.
use video_captioner_r.Prelude.{ℕ, String, Bool, true, false, Option}

pub data JobStatus : Type 0 where
  pending running done done_degraded failed cancelled : JobStatus

abbrev pub job_is_terminal : JobStatus → Bool
job_is_terminal done = true
job_is_terminal done_degraded = true
job_is_terminal failed = true
job_is_terminal cancelled = true
job_is_terminal _ = false

pub data StageKind : Type 0 where
  probe extract_audio asr split correct translate export : StageKind

-- The derived `PartialEq`.
abbrev pub kind_eq : StageKind → StageKind → Bool
kind_eq probe probe = true
kind_eq extract_audio extract_audio = true
kind_eq asr asr = true
kind_eq split split = true
kind_eq correct correct = true
kind_eq translate translate = true
kind_eq export export = true
kind_eq _ _ = false

pub record ArtifactRef : Type 0 where
  pub id : String
  pub stage : StageKind
  pub path : String
  pub content_hash : String
  pub schema_version : ℕ
  pub producer_fingerprint : String

-- The derived `Debug` of the kinds.
abbrev pub debug_kind : StageKind → String
debug_kind probe = "Probe"
debug_kind extract_audio = "ExtractAudio"
debug_kind asr = "Asr"
debug_kind split = "Split"
debug_kind correct = "Correct"
debug_kind translate = "Translate"
debug_kind export = "Export"

pub data StageStatus : Type 0 where
  pending waiting_resource running retrying done done_degraded failed skipped cancelled :
      StageStatus
  waiting_provider : StageStatus

abbrev pub debug_status : StageStatus → String
debug_status pending = "Pending"
debug_status waiting_resource = "WaitingResource"
debug_status running = "Running"
debug_status retrying = "Retrying"
debug_status done = "Done"
debug_status done_degraded = "DoneDegraded"
debug_status failed = "Failed"
debug_status skipped = "Skipped"
debug_status cancelled = "Cancelled"
debug_status waiting_provider = "WaitingProvider"

abbrev pub is_terminal : StageStatus → Bool
is_terminal done = true
is_terminal done_degraded = true
is_terminal failed = true
is_terminal skipped = true
is_terminal cancelled = true
is_terminal _ = false

abbrev pub prerequisite_satisfied : StageStatus → Bool
prerequisite_satisfied done = true
prerequisite_satisfied done_degraded = true
prerequisite_satisfied skipped = true
prerequisite_satisfied _ = false

pub record StageState : Type 0 where
  pub kind : StageKind
  pub status : StageStatus
  pub artifact : Option ArtifactRef
