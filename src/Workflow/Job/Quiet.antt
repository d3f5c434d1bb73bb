-- ===== src/Workflow/Job/Quiet.antt =====
-- Stages at work, in the pipeline of crates/domain/src/workflow/job.rs.
use video_captioner_r.Workflow.Stage.{is_terminal, StageState, JobStatus}
use video_captioner_r.Workflow.Job.{is_active, Job}
use video_captioner_r.Workflow.Job.Lifecycle.{reset_from}
use video_captioner_r.Workflow.Job.Gate.{waits_of_blocked, satisfied, gated}
use video_captioner_r.Prelude.{
  Bool, List, [], any, arith, false, get_elem?, map, not, refl, set, some, suc, true, zero, ℕ, ◌∷◌,
  ◌≡◌, ◌⊎◌,
}

abbrev pub active : StageState → Bool
active s = is_active s.status

-- A job that is not running has no stage at work.
abbrev pub IsSettled : Job → Type 0
IsSettled j = (any active j.stages ≡ false) ⊎ (j.status ≡ JobStatus.running)

quiet_of_blocked : (ss : List StageState) → gated false ss ≡ true → any active ss ≡ false
quiet_of_blocked [] g = refl
quiet_of_blocked (s ∷ ss) g = ground (arith, quiet_of_blocked ss)

-- When the stage at work stops, none is at work.
pub quiet-set :
    (p : Bool) (ss : List StageState) (i : ℕ) (s s' : StageState)
    → gated p ss ≡ true
    → get_elem? ss i ≡ some s
    → active s ≡ true
    → active s' ≡ false
    → any active (set ss i s') ≡ false
quiet-set p [] i s s' g e a b = refl
quiet-set p (x ∷ ss) zero s s' g e a b = ground (arith, quiet_of_blocked ss)
quiet-set p (x ∷ ss) (suc i) s s' g e a b =
    ground (arith, quiet-set (satisfied x) ss i s s', waits_of_blocked ss i s)

pub quiet-map :
    (f : StageState → StageState) (ss : List StageState)
    → ((s : StageState) → active (f s) ≡ false)
    → any active (map f ss) ≡ false
quiet-map f [] k = refl
quiet-map f (s ∷ ss) k = ground (arith, k s, quiet-map f ss k)

pub quiet_of_terminal :
    (ss : List StageState)
    → any (λ s. not (is_terminal s.status)) ss ≡ false
    → any active ss ≡ false
quiet_of_terminal [] h = refl
quiet_of_terminal (s ∷ ss) h = ground (arith, quiet_of_terminal ss)

pub quiet-reset_from :
    (i : ℕ) (ss : List StageState) → any active ss ≡ false → any active (reset_from i ss) ≡ false
unfolding reset_from
quiet-reset_from i [] h = refl
quiet-reset_from zero (s ∷ ss) h = ground (arith, quiet-reset_from zero ss)
quiet-reset_from (suc i) (s ∷ ss) h = ground (arith, quiet-reset_from i ss)

quiet-reset_all : (ss : List StageState) → any active (reset_from zero ss) ≡ false
unfolding reset_from
quiet-reset_all [] = refl
quiet-reset_all (s ∷ ss) = quiet-reset_all ss

-- Resetting from a satisfied stage on leaves none at work, since those before it are satisfied.
pub quiet-reset_committed :
    (p : Bool) (ss : List StageState) (i : ℕ) (s : StageState)
    → gated p ss ≡ true
    → get_elem? ss i ≡ some s
    → satisfied s ≡ true
    → any active (reset_from i ss) ≡ false
unfolding reset_from
quiet-reset_committed p [] i s g e k = refl
quiet-reset_committed p (x ∷ ss) zero s g e k = quiet-reset_all ss
quiet-reset_committed p (x ∷ ss) (suc i) s g e k =
    ground (arith, quiet-reset_committed (satisfied x) ss i s, waits_of_blocked ss i s)

pub any-set_keep :
    (ss : List StageState) (i : ℕ) (s s' : StageState)
    → get_elem? ss i ≡ some s
    → (active s ≡ false → active s' ≡ false)
    → any active ss ≡ false
    → any active (set ss i s') ≡ false
any-set_keep [] i s s' e k h = refl
any-set_keep (x ∷ ss) zero s s' e k h = ground arith
any-set_keep (x ∷ ss) (suc i) s s' e k h = ground (arith, any-set_keep ss i s s')
