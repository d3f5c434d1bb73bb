-- ===== src/Workflow/Job/Retry.antt =====
-- What an explicit retry of crates/domain/src/workflow/job.rs prepares.
use video_captioner_r.Workflow.Stage.{kind_eq, JobStatus, StageKind, StageState}
use video_captioner_r.Workflow.Job.{Job, job_is_retryable, is_retryable, fresh_stage, kinds}
use video_captioner_r.Workflow.Job.Lifecycle.{reset_from, retry_index, prepare_retry}
use video_captioner_r.Workflow.Job.Invariant.{IsValid, kind_of}
use video_captioner_r.Prelude.{
  Bool-cases, Result, err, inl, inr, panic, refl, sym, ◌∙◌, List, Option, [], any, ap, arith, drop,
  false, get_elem?, map, none, ok, position, position-first, position-get_elem?, sat_add_u32, some,
  suc, take, true, zero, ℕ, ◌++◌, ◌∷◌, ◌≡◌,
}

reset_from-append :
    (i : ℕ) (ss : List StageState)
    → reset_from i ss ≡ take i ss ++ map fresh_stage (drop i (map kind_of ss))
unfolding reset_from
reset_from-append zero [] = refl
reset_from-append (suc i) [] = refl
reset_from-append zero (s ∷ ss) = ap (◌∷◌ (fresh_stage s.kind)) (reset_from-append zero ss)
reset_from-append (suc i) (s ∷ ss) = ap (◌∷◌ s) (reset_from-append i ss)

-- Which stage a retry starts from: the one asked for, or the first that failed, was cancelled or
-- waits for its provider.
abbrev pub StartsAt : List StageState → Option StageKind → ℕ → StageState → Type 0
StartsAt ss (some kind) i s = s.kind ≡ kind
StartsAt ss none i s =
    (is_retryable s.status ≡ true) × (any (λ t. is_retryable t.status) (take i ss) ≡ false)

kind_eq→≡ : (a b : StageKind) → kind_eq a b ≡ true → a ≡ b
kind_eq→≡ a b h = ground arith

retry_index-StartsAt :
    (ss : List StageState) (from_stage : Option StageKind) (i : ℕ)
    → retry_index ss from_stage ≡ ok i
    → (s : StageState) × (get_elem? ss i ≡ some s) × StartsAt ss from_stage i s
unfolding retry_index
retry_index-StartsAt ss (some kind) i e =
    let (s, es, k) = position-get_elem? (λ s. kind_eq s.kind kind) ss i (ground arith) in
    (s, es, kind_eq→≡ s.kind kind k)
retry_index-StartsAt ss none i e =
    let p : position (λ s. is_retryable s.status) ss ≡ some i = ground arith in
    let (s, es, k) = position-get_elem? (λ s. is_retryable s.status) ss i p in
    (s, es, (k, position-first (λ s. is_retryable s.status) ss i p))

-- The job that a retry from stage `i` leaves behind.
abbrev pub retried : Job → ℕ → Job
retried j i = record j {
  stages = take i j.stages ++ map fresh_stage (drop i kinds);
  retry_attempt = sat_add_u32 j.retry_attempt 1;
  retry_generation = sat_add_u32 j.retry_generation 1;
  status = JobStatus.pending;
  cancel_requested = false;
}

retried_lem :
    (j : Job) (i : ℕ)
    → IsValid j
    → record j {
      stages = reset_from i j.stages;
      retry_attempt = sat_add_u32 j.retry_attempt 1;
      retry_generation = sat_add_u32 j.retry_generation 1;
      status = JobStatus.pending;
      cancel_requested = false;
    }
      ≡ retried j i
retried_lem j i v =
    ap (λ ss. record (retried j i) { stages = ss })
      (reset_from-append i j.stages
        ∙ ap (λ ks. take i j.stages ++ map fresh_stage (drop i ks)) v.pipeline)

prepare_retry_at :
    (j : Job) (from_stage : Option StageKind) (i : ℕ) (s : StageState)
    → IsValid j
    → job_is_retryable j.status ≡ true
    → retry_index j.stages from_stage ≡ ok i
    → get_elem? j.stages i ≡ some s
    → prepare_retry j from_stage ≡ (retried j i, ok s.kind)
unfolding prepare_retry
prepare_retry_at j from_stage i s v r e g =
    rw r (
      rw (e, prepare_retry)
        (rw (g, prepare_retry) (ap (λ j'. (j', ok s.kind)) (retried_lem j i v))))

index_of_retry :
    (j : Job) (from_stage : Option StageKind) (j' : Job) (kind : StageKind) (r : Result ℕ)
    → job_is_retryable j.status ≡ true
    → retry_index j.stages from_stage ≡ r
    → prepare_retry j from_stage ≡ (j', ok kind)
    → (i : ℕ) × (r ≡ ok i)
unfolding prepare_retry
index_of_retry j from_stage j' kind (ok i) t e h = (i, refl)
index_of_retry j from_stage j' kind (err x) t e h = cc (rw (t, e, prepare_retry) at h)
index_of_retry j from_stage j' kind panic t e h = cc (rw (t, e, prepare_retry) at h)

prepare_retry-inv :
    (j : Job) (from_stage : Option StageKind) (j' : Job) (kind : StageKind)
    → prepare_retry j from_stage ≡ (j', ok kind)
    → (job_is_retryable j.status ≡ true) × ((i : ℕ) × (retry_index j.stages from_stage ≡ ok i))
unfolding prepare_retry
prepare_retry-inv j from_stage j' kind h = elim (Bool-cases (job_is_retryable j.status)) [
  | inl t ↦ (t, index_of_retry j from_stage j' kind (retry_index j.stages from_stage) t refl h)
  | inr no_retry ↦ cc (rw no_retry at h)
]

-- A retry that a valid job accepts starts at the stage asked for or else at the first failed,
-- cancelled or waiting one; stages before it stay, it and all later ones are new, and the job
-- is pending with the attempt and generation counted.
pub prepare_retry-StartsAt :
    (j : Job) (from_stage : Option StageKind) (j' : Job) (kind : StageKind)
    → IsValid j
    → prepare_retry j from_stage ≡ (j', ok kind)
    → (i : ℕ) × (s : StageState) × (get_elem? j.stages i ≡ some s)
      × (s.kind ≡ kind)
      × StartsAt j.stages from_stage i s
      × (j' ≡ retried j i)
prepare_retry-StartsAt j from_stage j' kind v h =
    let (r, (i, e)) = prepare_retry-inv j from_stage j' kind h in
    let (s, g, at) = retry_index-StartsAt j.stages from_stage i e in
    let same = sym (prepare_retry_at j from_stage i s v r e g) ∙ h in
    (i, s, g, cc same, at, cc same)
