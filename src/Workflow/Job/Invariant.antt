-- ===== src/Workflow/Job/Invariant.antt =====
-- What holds of the stages of a job between two commands (crates/domain/src/workflow/job.rs).
use video_captioner_r.Workflow.Stage.{StageKind, StageStatus, ArtifactRef, StageState, kind_eq}
use video_captioner_r.Workflow.Job.{stage_mut, Job, kinds, new}
use video_captioner_r.Workflow.Job.Stages.{
  fail_active, enter_stage, enter_pending, complete_running, record_revision,
}
use video_captioner_r.Workflow.Job.Machine.{stage_mut_cases, enter_stage_cases, put_stage}
use video_captioner_r.Workflow.Job.Gate.{
  before_of_prerequisite, waits, satisfied, gated-set, before, gated,
}
-- An artifact is of the stage that holds it, and a stage that is done holds one.
use video_captioner_r.Prelude.{
  Result, inl, inr, Bool, Option, String, all, all-get_elem?, all-set, arith, false, get_elem?, map,
  map-set, none, refl, some, true, ℕ, ◌∙◌, ◌≡◌, ◌⊎◌,
}

abbrev has_right_artifact : StageKind → StageStatus → Option ArtifactRef → Bool
has_right_artifact kind StageStatus.done none = false
has_right_artifact kind StageStatus.done_degraded none = false
has_right_artifact kind _ none = true
has_right_artifact kind _ (some a) = kind_eq a.stage kind

abbrev pub stage_fits : StageState → Bool
stage_fits s = has_right_artifact s.kind s.status s.artifact

abbrev pub kind_of : StageState → StageKind
kind_of s = s.kind

pub record IsValid (j : Job) : Type 0 where
  pub pipeline : map kind_of j.stages ≡ kinds
  pub in_order : gated true j.stages ≡ true
  pub artifacts : all stage_fits j.stages ≡ true

-- A new job satisfies the invariant.
pub job_new-IsValid :
    (id : String) (batch_id : Option String) (profile_revision source_path : String)
    → IsValid (new id batch_id profile_revision source_path)
unfolding new
job_new-IsValid id batch_id profile_revision source_path = record {
  pipeline = refl;
  in_order = refl;
  artifacts = refl;
}

-- What a change of one stage keeps, and what it needs.
pub record Keeps (entered : Type 0) (s s' : StageState) : Type 0 where
  pub same_kind : s'.kind ≡ s.kind
  pub satisfied_kept : satisfied s ≡ true → satisfied s' ≡ true
  pub entered_gated : (waits s'.status ≡ true) ⊎ (waits s.status ≡ false) ⊎ entered
  pub fits_kept : stage_fits s ≡ true → stage_fits s' ≡ true

put_stage-IsValid :
    (j : Job) (i : ℕ) (s s' : StageState)
    → IsValid j
    → get_elem? j.stages i ≡ some s
    → Keeps (before true j.stages i ≡ true) s s'
    → IsValid (put_stage j i s')
put_stage-IsValid j i s s' v e k = record {
  pipeline = map-set kind_of j.stages i s s' e k.same_kind ∙ v.pipeline;
  in_order = gated-set true j.stages i s s' e v.in_order k.satisfied_kept k.entered_gated;
  artifacts =
      all-set stage_fits j.stages i s' v.artifacts
        (k.fits_kept (all-get_elem? stage_fits j.stages i s v.artifacts e));
}

pub record_revision-Keeps :
    (kind : StageKind) (a : ArtifactRef) (s : StageState)
    → kind_eq a.stage kind ≡ true
    → kind_eq s.kind kind ≡ true
    → Keeps ⊥ s (record_revision kind a s).0
unfolding record_revision
record_revision-Keeps kind a s e f = ground arith

pub complete_running-Keeps :
    (kind : StageKind) (a : ArtifactRef) (degraded : Bool) (s : StageState)
    → kind_eq s.kind kind ≡ true
    → Keeps ⊥ s (complete_running kind a degraded s).0
unfolding complete_running
complete_running-Keeps kind a degraded s f = ground arith

pub fail_active-Keeps : (s : StageState) → Keeps ⊥ s (fail_active s).0
unfolding fail_active
fail_active-Keeps s = ground arith

pub start-Keeps :
    (entered : Type 0) (s : StageState)
    → entered
    → Keeps entered s (enter_pending StageStatus.running s).0
unfolding enter_pending
start-Keeps entered s e = ground arith

pub skip-Keeps :
    (entered : Type 0) (s : StageState)
    → entered
    → Keeps entered s (enter_pending StageStatus.skipped s).0
unfolding enter_pending
skip-Keeps entered s e = ground arith

Keeps-weaken : (entered : Type 0) (s s' : StageState) → Keeps ⊥ s s' → Keeps entered s s'
Keeps-weaken entered s s' k = record {
  same_kind = k.same_kind;
  satisfied_kept = k.satisfied_kept;
  entered_gated = elim k.entered_gated [
    | inl w ↦ inl w
    | inr (inl w) ↦ inr (inl w)
    | inr (inr b) ↦ absurd b
  ];
  fits_kept = k.fits_kept;
}

pub stage_mut-IsValid :
    (j : Job) (kind : StageKind) (f : StageState → StageState × Result (Unit {0}))
    → ((s : StageState) → kind_eq s.kind kind ≡ true → Keeps ⊥ s (f s).0)
    → IsValid j
    → IsValid (stage_mut j kind f).0
stage_mut-IsValid j kind f k v =
    stage_mut_cases (λ r. IsValid r.0) j kind f (λ _. v)
      λ i s e m.
        put_stage-IsValid j i s (f s).0 v e
          (Keeps-weaken (before true j.stages i ≡ true) s (f s).0 (k s m))

pub enter_stage-IsValid :
    (j : Job) (kind : StageKind) (verb : String) (to : StageStatus)
    → ((e : Type 0) (s : StageState) → e → Keeps e s (enter_pending to s).0)
    → IsValid j
    → IsValid (enter_stage j kind verb to).0
enter_stage-IsValid j kind verb to k v =
    enter_stage_cases (λ r. IsValid r.0) j kind verb to (λ _. v)
      λ i s _ e m.
        put_stage-IsValid j i s (enter_pending to s).0 v e
          (k (before true j.stages i ≡ true) s (before_of_prerequisite j.stages i m))
