-- ===== src/Workflow/Batch/Events.antt =====
-- How often a batch of crates/domain/src/workflow/batch.rs announces its end.
use video_captioner_r.Workflow.Batch.{Batch, is_terminal}
use video_captioner_r.Workflow.Batch.Machine.{retry_command, emitted, Command, Answer, step}
-- Events, and the retries that allow for more of them.
use video_captioner_r.Prelude.{List, [], arith, if◌then◌else◌, suc, ℕ, ◌+◌, ◌∷◌, ◌≡◌, ◌≤◌}

abbrev emits : Answer → ℕ
emits (emitted e) = 1
emits _ = 0

abbrev pub events : Batch → List Command → ℕ
events b [] = 0
events b (c ∷ cs) = emits (step b c).1 + events (step b c).0 cs

abbrev pub retries : List Command → ℕ
retries [] = 0
retries (retry_command job_id ∷ cs) = suc (retries cs)
retries (_ ∷ cs) = retries cs

abbrev pub ended : Batch → ℕ
ended b = if is_terminal b.status then 1 else 0

events_step :
    (b : Batch) (c : Command) → emits (step b c).1 + ended b ≤ ended (step b c).0 + retries (c ∷ [])
unfolding step
events_step b c = ground arith

retries-cons : (c : Command) (cs : List Command) → retries (c ∷ cs) ≡ retries (c ∷ []) + retries cs
retries-cons c cs = ground arith

-- In any history a batch announces its end at most once, and once more for each retry.
pub events_bounded : (b : Batch) (cs : List Command) → events b cs + ended b ≤ 1 + retries cs
events_bounded b [] = ground arith
events_bounded b (c ∷ cs) =
    omega (arith, events_step b c, events_bounded (step b c).0 cs, retries-cons c cs)
