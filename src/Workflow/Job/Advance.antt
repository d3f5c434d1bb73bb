-- ===== src/Workflow/Job/Advance.antt =====
-- One stage of a job of crates/domain/src/workflow/job.rs is brought to its outcome.
use video_captioner_r.Workflow.Stage.{
  StageKind, StageStatus, StageState, JobStatus, ArtifactRef, kind_eq,
}
use video_captioner_r.Workflow.Job.{Job, fresh_stage, stage_index, with_stage, stage_mut}
use video_captioner_r.Workflow.Job.Stages.{
  start_stage, skip_stage, complete_stage, complete_running, enter_stage, enter_pending,
  prerequisite_missing,
}
use video_captioner_r.Workflow.Job.Machine.{
  Command, start_stage_command, skip_stage_command, complete_stage_command, step, run, answer_job,
}
use video_captioner_r.Workflow.Job.Gate.{satisfied}
use video_captioner_r.Prelude.{
  ◌∙◌, Bool, String, [], all, any, ap, arith, false, get_elem?, if◌then◌else◌, length, none, ok,
  position, refl, set, some, true, ◌++◌, ◌∷◌, ◌≡◌, List,
}

-- How a stage goes: it is skipped, or completed with an artifact, degraded or not.
pub data Outcome : Type 0 where
  skips : Outcome
  completes : ArtifactRef → Bool → Outcome

abbrev own : StageKind → ArtifactRef → ArtifactRef
own kind a = record a { stage = kind }

-- The commands that bring a stage there.
abbrev pub commands : StageKind → Outcome → List Command
commands kind skips = skip_stage_command kind ∷ []
commands kind (completes a degraded) =
    start_stage_command kind ∷ complete_stage_command kind (own kind a) degraded ∷ []

-- The stage after them.
abbrev pub after : StageKind → Outcome → StageState
after kind o = record {
  kind = kind;
  status = elim o [
    | skips ↦ StageStatus.skipped
    | completes a degraded ↦ if degraded then StageStatus.done_degraded else StageStatus.done
  ];
  artifact = elim o [ skips ↦ none | completes a degraded ↦ some (own kind a) ];
}

pub after-satisfied : (kind : StageKind) (o : Outcome) → satisfied (after kind o) ≡ true
after-satisfied kind skips = refl
after-satisfied kind (completes a true) = refl
after-satisfied kind (completes a false) = refl

module _ {A : Type 0} where
  position-append :
      (p : A → Bool) (xs : List A) (y : A) (ys : List A)
      → any p xs ≡ false
      → p y ≡ true
      → position p (xs ++ y ∷ ys) ≡ some (length xs)
  position-append p [] y ys n h = ground arith
  position-append p (x ∷ xs) y ys n h = ground (arith, position-append p xs y ys)

  get_elem?-append :
      (xs : List A) (y : A) (ys : List A) → get_elem? (xs ++ y ∷ ys) (length xs) ≡ some y
  get_elem?-append [] y ys = refl
  get_elem?-append (x ∷ xs) y ys = get_elem?-append xs y ys

  set-append :
      (xs : List A) (y z : A) (ys : List A) → set (xs ++ y ∷ ys) (length xs) z ≡ xs ++ z ∷ ys
  set-append [] y z ys = refl
  set-append (x ∷ xs) y z ys = ap (◌∷◌ x) (set-append xs y z ys)

  last-append :
      (p : A → Bool) (x : A) (xs ys : List A)
      → all p (x ∷ xs) ≡ true
      → (z : A) × (get_elem? ((x ∷ xs) ++ ys) (length xs) ≡ some z) × (p z ≡ true)
  last-append p x [] ys h = (x, refl, ground arith)
  last-append p x (w ∷ xs) ys h = last-append p w xs ys (ground arith)

prerequisite_there :
    (xs ys : List StageState)
    → all satisfied xs ≡ true
    → prerequisite_missing (xs ++ ys) (length xs) ≡ ok false
unfolding prerequisite_missing
prerequisite_there [] ys h = refl
prerequisite_there (x ∷ xs) ys h =
    let (z, e, s) = last-append satisfied x xs ys h in rw (e, prerequisite_missing) (rw s refl)

-- A job that runs, with given stages.
abbrev pub at : Job → List StageState → Job
at j stages = record j { stages = stages; status = JobStatus.running }

kind_eq_self : (k : StageKind) → kind_eq k k ≡ true
kind_eq_self k = ground arith

enter_stage-at :
    (j : Job) (xs : List StageState) (kind : StageKind) (ys : List StageState) (verb : String)
    (to : StageStatus)
    → any (λ (s : StageState). kind_eq s.kind kind) xs ≡ false
    → all satisfied xs ≡ true
    → (enter_stage (at j (xs ++ fresh_stage kind ∷ ys)) kind verb to).0
      ≡ at j (xs ++ record (fresh_stage kind) { status = to } ∷ ys)
unfolding enter_stage enter_pending stage_index with_stage
enter_stage-at j xs kind ys verb to n h =
    rw
      (
        position-append (λ (s : StageState). kind_eq s.kind kind) xs (fresh_stage kind) ys n
            (kind_eq_self kind),
        enter_stage,
        stage_index,
      )
      (rw (prerequisite_there xs (fresh_stage kind ∷ ys) h, enter_stage)
        (rw (get_elem?-append xs (fresh_stage kind) ys, with_stage)
          (ap (at j)
            (set-append xs (fresh_stage kind) (record (fresh_stage kind) { status = to }) ys))))

complete_stage-at :
    (j : Job) (xs : List StageState) (kind : StageKind) (ys : List StageState) (a : ArtifactRef)
    (degraded : Bool)
    → any (λ (s : StageState). kind_eq s.kind kind) xs ≡ false
    → (complete_stage
        (at j (xs ++ record (fresh_stage kind) { status = StageStatus.running } ∷ ys))
        kind
        (own kind a)
        degraded).0
      ≡ at j (xs ++ after kind (completes a degraded) ∷ ys)
unfolding complete_stage complete_running stage_mut stage_index with_stage
complete_stage-at j xs kind ys a degraded n =
    let s : StageState = record (fresh_stage kind) { status = StageStatus.running } in
    rw
      (
        position-append (λ (s : StageState). kind_eq s.kind kind) xs s ys n (kind_eq_self kind),
        complete_stage,
        stage_mut,
        stage_index,
      )
      (rw (get_elem?-append xs s ys, with_stage)
        (rw (kind_eq_self kind, complete_running)
          (ap (at j) (set-append xs s (after kind (completes a degraded)) ys))))

pub run-append : (j : Job) (xs ys : List Command) → run j (xs ++ ys) ≡ run (run j xs) ys
unfolding run
run-append j [] ys = refl
run-append j (c ∷ xs) ys = run-append (step j c).0 xs ys

pub run-commands :
    (j : Job) (xs : List StageState) (kind : StageKind) (ys : List StageState) (o : Outcome)
    → any (λ (s : StageState). kind_eq s.kind kind) xs ≡ false
    → all satisfied xs ≡ true
    → run (at j (xs ++ fresh_stage kind ∷ ys)) (commands kind o) ≡ at j (xs ++ after kind o ∷ ys)
unfolding run step start_stage skip_stage
run-commands j xs kind ys skips n h =
    answer_job (skip_stage (at j (xs ++ fresh_stage kind ∷ ys)) kind)
    ∙ enter_stage-at j xs kind ys "skip_" StageStatus.skipped n h
run-commands j xs kind ys (completes a degraded) n h =
    let before_it = at j (xs ++ fresh_stage kind ∷ ys) in
    let started : (step before_it (start_stage_command kind)).0
        ≡ at j (xs ++ record (fresh_stage kind) { status = StageStatus.running } ∷ ys) =
      answer_job (start_stage before_it kind)
      ∙ enter_stage-at j xs kind ys "start_" StageStatus.running n h in
    ap (λ r. (step r (complete_stage_command kind (own kind a) degraded)).0) started
    ∙ (answer_job (
          complete_stage
            (at j (xs ++ record (fresh_stage kind) { status = StageStatus.running } ∷ ys)) kind
            (own kind a) degraded)
        ∙ complete_stage-at j xs kind ys a degraded n)
