-- ===== src/Workflow/Job/Gate.antt =====
-- The order of the stages of crates/domain/src/workflow/job.rs, as a test on the list of stages.
use video_captioner_r.Workflow.Stage.{StageStatus, StageState, prerequisite_satisfied}
use video_captioner_r.Workflow.Job.Stages.{prerequisite_missing}
use video_captioner_r.Workflow.Job.Lifecycle.{reset_from}
use video_captioner_r.Prelude.{
  ◌∙◌, Bool, List, [], arith, false, get_elem?, map, ok, refl, set, some, suc, true, zero, ℕ, ◌&&◌,
  ◌<◌, ◌||◌, ◌∷◌, ◌≡◌, ◌⊎◌,
}

abbrev pub satisfied : StageState → Bool
satisfied s = prerequisite_satisfied s.status

-- A stage that has not been entered, or was ended from outside.
abbrev pub waits : StageStatus → Bool
waits StageStatus.pending = true
waits StageStatus.cancelled = true
waits StageStatus.failed = true
waits _ = false

-- Whoever does not wait has a satisfied stage before it; `p` says so of the stage before the list.
abbrev pub gated : Bool → List StageState → Bool
gated p [] = true
gated p (s ∷ ss) = (p || waits s.status) && gated (satisfied s) ss

-- Whether the stage before position `i` is satisfied.
abbrev pub before : Bool → List StageState → ℕ → Bool
before p ss zero = p
before p [] (suc i) = false
before p (s ∷ ss) (suc i) = before (satisfied s) ss i

gated_mono :
    (p q : Bool) (ss : List StageState)
    → (p ≡ true → q ≡ true)
    → gated p ss ≡ true
    → gated q ss ≡ true
gated_mono p q [] h g = refl
gated_mono p q (s ∷ ss) h g = ground arith

-- A new state of one stage keeps the order if it stays satisfied where it was, and is entered
-- only behind a satisfied stage.
pub gated-set :
    (p : Bool) (ss : List StageState) (i : ℕ) (s s' : StageState)
    → get_elem? ss i ≡ some s
    → gated p ss ≡ true
    → (satisfied s ≡ true → satisfied s' ≡ true)
    → (waits s'.status ≡ true) ⊎ (waits s.status ≡ false) ⊎ (before p ss i ≡ true)
    → gated p (set ss i s') ≡ true
gated-set p [] i s s' e g k w = refl
gated-set p (x ∷ ss) zero s s' e g k w =
    ground (arith, gated_mono (satisfied s) (satisfied s') ss k)
gated-set p (x ∷ ss) (suc i) s s' e g k w = ground (arith, gated-set (satisfied x) ss i s s' e)

-- So does a new state of every stage that keeps each one as satisfied and as waiting as it was.
pub gated-map :
    (f : StageState → StageState) (p : Bool) (ss : List StageState)
    → ((s : StageState) → satisfied (f s) ≡ satisfied s)
    → ((s : StageState) → waits s.status ≡ true → waits (f s).status ≡ true)
    → gated p ss ≡ true
    → gated p (map f ss) ≡ true
gated-map f p [] k w g = refl
gated-map f p (s ∷ ss) k w g = ground (arith, k s, w s, gated-map f (satisfied s) ss k w)

gated-reset_all : (p : Bool) (ss : List StageState) → gated p (reset_from zero ss) ≡ true
unfolding reset_from
gated-reset_all p [] = refl
gated-reset_all p (s ∷ ss) = ground (arith, gated-reset_all false ss)

pub gated-reset_from :
    (p : Bool) (i : ℕ) (ss : List StageState) → gated p ss ≡ true → gated p (reset_from i ss) ≡ true
unfolding reset_from
gated-reset_from p i [] g = refl
gated-reset_from p zero (s ∷ ss) g = gated-reset_all p (s ∷ ss)
gated-reset_from p (suc i) (s ∷ ss) g = ground (arith, gated-reset_from (satisfied s) i ss)

before-shift :
    (p : Bool) (ss : List StageState) (i : ℕ) → before p ss (suc i) ≡ before true ss (suc i)
before-shift p [] i = refl
before-shift p (s ∷ ss) i = refl

-- The code's test of the stage before is `before`.
pub before_of_prerequisite :
    (ss : List StageState) (i : ℕ) → prerequisite_missing ss i ≡ ok false → before true ss i ≡ true
unfolding prerequisite_missing
before_of_prerequisite ss zero h = refl
before_of_prerequisite [] (suc i) h = cc
before_of_prerequisite (s ∷ ss) (suc zero) h = ground arith
before_of_prerequisite (s ∷ ss) (suc (suc i)) h =
    before-shift (satisfied s) ss i ∙ before_of_prerequisite ss (suc i) h

-- Behind an unsatisfied stage everything waits.
pub waits_of_blocked :
    (ss : List StageState) (j : ℕ) (t : StageState)
    → gated false ss ≡ true
    → get_elem? ss j ≡ some t
    → waits t.status ≡ true
waits_of_blocked [] j t g e = cc
waits_of_blocked (s ∷ ss) zero t g e = ground arith
waits_of_blocked (s ∷ ss) (suc j) t g e = ground (arith, waits_of_blocked ss j t)

-- In a gated list every stage before an entered one is satisfied.
pub satisfied_of_gated :
    (p : Bool) (ss : List StageState) (i j : ℕ) (s t : StageState)
    → gated p ss ≡ true
    → get_elem? ss i ≡ some s
    → get_elem? ss j ≡ some t
    → i < j
    → waits t.status ≡ false
    → satisfied s ≡ true
satisfied_of_gated p [] i j s t g es et lt w = cc
satisfied_of_gated p (x ∷ ss) i zero s t g es et lt w = absurd (omega arith)
satisfied_of_gated p (x ∷ ss) zero (suc j) s t g es et lt w =
    ground (arith, waits_of_blocked ss j t)
satisfied_of_gated p (x ∷ ss) (suc i) (suc j) s t g es et lt w =
    satisfied_of_gated (satisfied x) ss i j s t (ground arith) es et (omega arith) w
