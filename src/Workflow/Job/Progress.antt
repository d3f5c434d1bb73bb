-- ===== src/Workflow/Job/Progress.antt =====
-- A job of crates/domain/src/workflow/job.rs can be brought through all its stages.
use video_captioner_r.Workflow.Stage.{StageKind, StageState, JobStatus, kind_eq, is_terminal}
use video_captioner_r.Workflow.Job.{Job, new, kinds, fresh_stage}
use video_captioner_r.Workflow.Job.Lifecycle.{
  start, finish, terminal_status, is_degraded, is_failed, is_cancelled,
}
use video_captioner_r.Workflow.Job.Machine.{
  Command, start_command, finish_command, accepted, step, run,
}
use video_captioner_r.Workflow.Job.Invariant.{kind_of}
use video_captioner_r.Workflow.Job.Gate.{satisfied}
use video_captioner_r.Prelude.{
  Option, map, not, sym, ◌&&◌, ◌||◌, ◌∙◌, Bool, String, [], all, any, ap, arith, false,
  if◌then◌else◌, refl, true, ◌++◌, ◌∷◌, ◌≡◌, List,
}
use video_captioner_r.Workflow.Job.Advance.{
  Outcome, skips, completes, commands, after, after-satisfied, at, run-append, run-commands,
}

-- The kinds that are left differ from each other and from those that are behind.
abbrev apart : List StageKind → List StageKind → Bool
apart [] seen = true
apart (k ∷ ks) seen = not (any (λ s. kind_eq s k) seen) && apart ks (seen ++ k ∷ [])

any-kind_of :
    (k : StageKind) (xs : List StageState)
    → any (λ (s : StageState). kind_eq s.kind k) xs ≡ any (λ s. kind_eq s k) (map kind_of xs)
any-kind_of k [] = refl
any-kind_of k (x ∷ xs) = ap (λ b. kind_eq x.kind k || b) (any-kind_of k xs)

map-kind_of :
    (xs : List StageState) (s : StageState)
    → map kind_of (xs ++ s ∷ []) ≡ map kind_of xs ++ s.kind ∷ []
map-kind_of [] s = refl
map-kind_of (x ∷ xs) s = ap (◌∷◌ x.kind) (map-kind_of xs s)

all-append :
    (p : StageState → Bool) (xs : List StageState) (s : StageState)
    → all p xs ≡ true
    → p s ≡ true
    → all p (xs ++ s ∷ []) ≡ true
all-append p [] s h q = ground arith
all-append p (x ∷ xs) s h q = ground (arith, all-append p xs s)

append-push :
    (xs : List StageState) (y : StageState) (ys : List StageState)
    → (xs ++ y ∷ []) ++ ys ≡ xs ++ y ∷ ys
append-push [] y ys = refl
append-push (x ∷ xs) y ys = ap (◌∷◌ x) (append-push xs y ys)

-- The commands for the kinds that are left.
abbrev pub pipeline : (StageKind → Outcome) → List StageKind → List Command
pipeline o [] = []
pipeline o (k ∷ ks) = commands k (o k) ++ pipeline o ks

abbrev pub outcomes : (StageKind → Outcome) → List StageKind → List StageState
outcomes o [] = []
outcomes o (k ∷ ks) = after k (o k) ∷ outcomes o ks

run-pipeline :
    (j : Job) (o : StageKind → Outcome) (ks : List StageKind) (xs : List StageState)
    → apart ks (map kind_of xs) ≡ true
    → all satisfied xs ≡ true
    → run (at j (xs ++ map fresh_stage ks)) (pipeline o ks) ≡ at j (xs ++ outcomes o ks)
run-pipeline j o [] xs d h = unfold run in refl
run-pipeline j o (k ∷ ks) xs d h =
    let done_now = xs ++ after k (o k) ∷ [] in
    run-append (at j (xs ++ map fresh_stage (k ∷ ks))) (commands k (o k)) (pipeline o ks)
    ∙ (ap (λ r. run r (pipeline o ks))
          (run-commands j xs k (map fresh_stage ks) (o k) (any-kind_of k xs ∙ (ground arith)) h
            ∙ ap (at j) (sym (append-push xs (after k (o k)) (map fresh_stage ks))))
        ∙ (run-pipeline j o ks done_now (rw (map-kind_of xs (after k (o k))) (ground arith))
              (all-append satisfied xs (after k (o k)) h (after-satisfied k (o k)))
            ∙ ap (at j) (append-push xs (after k (o k)) (outcomes o ks))))

abbrev pub degrades : Outcome → Bool
degrades skips = false
degrades (completes a degraded) = degraded

-- What the statuses of these stages say to `finish`.
abbrev Reported : List StageState → Bool → Type 0
Reported ss degraded =
    (any (λ (s : StageState). not (is_terminal s.status)) ss ≡ false)
    × (any is_failed ss ≡ false)
    × (any is_cancelled ss ≡ false)
    × (any is_degraded ss ≡ degraded)

cons-Reported :
    (k : StageKind) (o : Outcome) (ss : List StageState) (degraded : Bool)
    → Reported ss degraded
    → Reported (after k o ∷ ss) (degrades o || degraded)
cons-Reported k skips ss degraded r = r
cons-Reported k (completes a true) ss degraded (t, f, c, d) = (t, f, c, refl)
cons-Reported k (completes a false) ss degraded r = r

outcomes-Reported :
    (o : StageKind → Outcome) (ks : List StageKind)
    → Reported (outcomes o ks) (any (λ k. degrades (o k)) ks)
outcomes-Reported o [] = (refl, refl, refl, refl)
outcomes-Reported o (k ∷ ks) =
    cons-Reported k (o k) (outcomes o ks) (any (λ k. degrades (o k)) ks) (outcomes-Reported o ks)

finish-at :
    (j : Job) (ss : List StageState) (degraded : Bool)
    → Reported ss degraded
    → step (at j ss) finish_command ≡ (
      record (at j ss) { status = if degraded then JobStatus.done_degraded else JobStatus.done },
      accepted,
    )
unfolding step finish terminal_status
finish-at j ss degraded (t, f, c, d) = ground (arith, t, f, c, d)

started :
    (id : String) (batch_id : Option String) (profile_revision source_path : String)
    → let j = new id batch_id profile_revision source_path in
      (step j start_command).0 ≡ at j (map fresh_stage kinds)
unfolding step start new
started id batch_id profile_revision source_path = refl

-- However each of the seven stages goes, skipped or completed, degraded or not, a new job that
-- is started and taken through its stages in order is finished with just these outcomes, and is
-- degraded when one of them is, else done.
pub pipeline_finishes :
    (id : String) (batch_id : Option String) (profile_revision source_path : String)
    (o : StageKind → Outcome)
    → let j =
        run (new id batch_id profile_revision source_path) (start_command ∷ pipeline o kinds) in
      ((step j finish_command).1 ≡ accepted)
      × ((step j finish_command).0.stages ≡ outcomes o kinds)
      × ((step j finish_command).0.status
          ≡ (if any (λ k. degrades (o k)) kinds then JobStatus.done_degraded else JobStatus.done))
unfolding run
pipeline_finishes id batch_id profile_revision source_path o =
    let j = new id batch_id profile_revision source_path in
    let reached : run j (start_command ∷ pipeline o kinds) ≡ at j (outcomes o kinds) =
      ap (λ r. run r (pipeline o kinds)) (started id batch_id profile_revision source_path)
      ∙ run-pipeline j o kinds [] refl refl in
    let ended =
      ap (λ r. step r finish_command) reached
      ∙ finish-at j (outcomes o kinds) (any (λ k. degrades (o k)) kinds)
          (outcomes-Reported o kinds) in
    (ap (λ r. r.1) ended, ap (λ r. r.0.stages) ended, ap (λ r. r.0.status) ended)
