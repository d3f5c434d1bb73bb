-- ===== src/UseCases/Retry/Stages.antt =====
-- crates/core/src/use_cases/retry_job.rs: the plan's stages and units, against those that the job
-- resets.
use video_captioner_r.Workflow.Stage.{probe, StageKind, StageState}
use video_captioner_r.Workflow.Job.{Job, kinds, is_retryable}
use video_captioner_r.Workflow.Job.Invariant.{IsValid, kind_of}
use video_captioner_r.Workflow.Job.Lifecycle.{prepare_retry}
use video_captioner_r.Workflow.Job.Retry.{StartsAt, retried, prepare_retry-StartsAt}
use video_captioner_r.Workflow.WorkUnit.{
  WorkUnit, WorkUnitStatus, retry, invalidate_artifact_for_recovery, failed, cancelled, done,
  pending, running,
}
use video_captioner_r.UseCases.{Versioned, gives, >>=-eq-gives}
use video_captioner_r.UseCases.Retry.{
  resolve_start_stage, reset_units, reset_unit, partition_stages, stage_rank,
}
use video_captioner_r.Prelude.{
  subst, All, Bool-cases, ap, inl, inr, ok, sym, ◌∙◌, ◌≤◌, Bool, List, Option, [], any, arith, drop,
  false, find, get_elem?, if◌then◌else◌, leb, map, none, refl, some, suc, take, true, zero, ℕ, ◌∷◌,
  ◌≡◌,
}

find-get_elem? :
    (p : StageState → Bool) (ss : List StageState) (i : ℕ) (s : StageState)
    → get_elem? ss i ≡ some s
    → p s ≡ true
    → any p (take i ss) ≡ false
    → find p ss ≡ some s
find-get_elem? p [] i s e h n = cc
find-get_elem? p (x ∷ ss) zero s e h n = ground arith
find-get_elem? p (x ∷ ss) (suc i) s e h n = ground (arith, find-get_elem? p ss i s)

-- The stage of the plan is the stage that the job starts at.
start_agrees :
    (j : Job) (from_stage : Option StageKind) (i : ℕ) (s : StageState) (start : StageKind)
    → get_elem? j.stages i ≡ some s
    → StartsAt j.stages from_stage i s
    → resolve_start_stage j from_stage ≡ gives start
    → s.kind ≡ start
unfolding resolve_start_stage
start_agrees j (some kind) i s start e at h = cc
start_agrees j none i s start e (retries, first) h = cc (
    rw
      (
        find-get_elem? (λ s. is_retryable s.status) j.stages i s e retries first,
        resolve_start_stage,
      )
      at h)

-- The kinds of at least the given rank.
abbrev from_rank : ℕ → List StageKind → List StageKind
unfolding stage_rank
from_rank r [] = []
from_rank r (k ∷ ks) = if leb r (stage_rank k) then k ∷ from_rank r ks else from_rank r ks

partition-from_rank :
    (ss : List StageState) (r : ℕ) → (partition_stages ss r).1 ≡ from_rank r (map kind_of ss)
unfolding partition_stages
partition-from_rank [] r = refl
partition-from_rank (s ∷ ss) r = ground (arith, partition-from_rank ss r)

from_rank-kinds : (k : StageKind) → from_rank (stage_rank k) kinds ≡ drop (stage_rank k) kinds
unfolding stage_rank
from_rank-kinds probe = refl
from_rank-kinds _ = refl

index-stage_rank : (i : ℕ) (k : StageKind) → get_elem? kinds i ≡ some k → i ≡ stage_rank k
unfolding stage_rank
index-stage_rank zero k h = ground arith
index-stage_rank (suc zero) k h = ground arith
index-stage_rank (suc (suc zero)) k h = ground arith
index-stage_rank (suc (suc (suc zero))) k h = ground arith
index-stage_rank (suc (suc (suc (suc zero)))) k h = ground arith
index-stage_rank (suc (suc (suc (suc (suc zero))))) k h = ground arith
index-stage_rank (suc (suc (suc (suc (suc (suc zero)))))) k h = ground arith
index-stage_rank (suc (suc (suc (suc (suc (suc (suc i))))))) k h = cc

get_elem?-map :
    {A B : Type 0} (f : A → B) (xs : List A) (i : ℕ) (x : A)
    → get_elem? xs i ≡ some x
    → get_elem? (map f xs) i ≡ some (f x)
get_elem?-map f [] i x e = cc
get_elem?-map f (y ∷ xs) zero x e = ground arith
get_elem?-map f (y ∷ xs) (suc i) x e = get_elem?-map f xs i x e

-- What the plan says of the stages is what the job does to them.
pub stages_agree :
    (j : Job) (from_stage : Option StageKind) (start : StageKind) (j' : Job) (kind : StageKind)
    → IsValid j
    → resolve_start_stage j from_stage ≡ gives start
    → prepare_retry j from_stage ≡ (j', ok kind)
    → (kind ≡ start)
      × ((partition_stages j.stages (stage_rank start)).1 ≡ drop (stage_rank start) kinds)
      × (j' ≡ retried j (stage_rank start))
stages_agree j from_stage start j' kind v h e =
    let (i, s, g, same, at, moved) = prepare_retry-StartsAt j from_stage j' kind v e in
    let agrees = start_agrees j from_stage i s start g at h in
    let index =
      index-stage_rank i s.kind
        (sym (ap (λ ks. get_elem? ks i) v.pipeline) ∙ get_elem?-map kind_of j.stages i s g) in
    (
      sym same ∙ agrees,
      partition-from_rank j.stages (stage_rank start)
          ∙ (ap (from_rank (stage_rank start)) v.pipeline ∙ from_rank-kinds start),
      moved ∙ ap (retried j) (index ∙ ap stage_rank agrees),
    )

-- A unit that is to be run again, of the start stage or a later one.
abbrev pub Waits : ℕ → WorkUnit × ℕ → Type 0
Waits start_rank u = (u.0.status ≡ pending) × (start_rank ≤ stage_rank u.0.stage)

reset_unit-pending :
    (u : Versioned WorkUnit) (r : WorkUnit × ℕ)
    → reset_unit u ≡ gives r
    → (r.0.status ≡ pending) × (r.0.stage ≡ u.value.stage)
unfolding reset_unit retry invalidate_artifact_for_recovery
reset_unit-pending u r h = by_status u.value.status refl
  where
    by_status :
        (status : WorkUnitStatus)
        → u.value.status ≡ status
        → (r.0.status ≡ pending) × (r.0.stage ≡ u.value.stage)
    by_status pending e = ground (arith, rw (e, reset_unit) at h)
    by_status running e = ground (arith, rw (e, reset_unit) at h)
    by_status done e = ground (arith, rw (e, reset_unit) at h)
    by_status failed e = ground (arith, rw (e, reset_unit) at h)
    by_status cancelled e = ground (arith, rw (e, reset_unit) at h)

pub reset_units-Waits :
    (r : ℕ) (us : List (Versioned WorkUnit)) (units : List (WorkUnit × ℕ))
    → reset_units r us ≡ gives units
    → All (Waits r) units
unfolding reset_units
reset_units-Waits r [] units h =
    let none_left : [] ≡ units = cc h in subst (All (Waits r)) none_left tt
reset_units-Waits r (u ∷ us) units h = elim (Bool-cases (leb r (stage_rank u.value.stage))) [
  | inr e ↦ reset_units-Waits r us units (rw (e, reset_units) at h)
  | inl e ↦
      let (one, f, k) = >>=-eq-gives (reset_unit u) _ (rw (e, reset_units) at h) in
      let (others, g, l) = >>=-eq-gives (reset_units r us) _ k in
      let (waits, same) = reset_unit-pending u one f in
      let made : one ∷ others ≡ units = cc l in
      rw (sym made) ((waits, ground (arith, ap stage_rank same)), reset_units-Waits r us others g)
]

leb_of_le : (a b : ℕ) → a ≤ b → leb a b ≡ true
leb_of_le a b h = ground arith

-- A unit that runs is not reset.
pub reset_units_running :
    (r : ℕ) (us : List (Versioned WorkUnit)) (units : List (WorkUnit × ℕ)) (i : ℕ)
    (u : Versioned WorkUnit)
    → reset_units r us ≡ gives units
    → get_elem? us i ≡ some u
    → u.value.status ≡ running
    → r ≤ stage_rank u.value.stage
    → ⊥
unfolding reset_units reset_unit
reset_units_running r [] units i u h e runs late = cc
reset_units_running r (v ∷ us) units zero u h e runs late =
    let same : v ≡ u = cc e in
    let (one, f, k) =
      >>=-eq-gives (reset_unit v) _
        (rw (leb_of_le r (stage_rank v.value.stage) (rw same late), reset_units) at h) in
    cc (rw (ap (λ (w : Versioned WorkUnit). w.value.status) same ∙ runs, reset_unit) at f)
reset_units_running r (v ∷ us) units (suc i) u h e runs late =
    elim (Bool-cases (leb r (stage_rank v.value.stage))) [
      | inr f ↦ reset_units_running r us units i u (rw (f, reset_units) at h) e runs late
      | inl f ↦
          let (one, g, k) = >>=-eq-gives (reset_unit v) _ (rw (f, reset_units) at h) in
          let (others, l, m) = >>=-eq-gives (reset_units r us) _ k in
          reset_units_running r us others i u l e runs late
    ]
