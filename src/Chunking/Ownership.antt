-- ===== src/Chunking/Ownership.antt =====
-- `retain_core_words` of crates/core/src/chunking.rs over the chunks of one plan.
use video_captioner_r.Contracts.{vc_ok}
use video_captioner_r.Subtitle.Word.{Word}
use video_captioner_r.Chunking.{AudioChunk, ChunkPlan, validate_options}
use video_captioner_r.Chunking.Build.{validate, validate_chunks}
use video_captioner_r.Chunking.Words.{center, retain_core_words}
use video_captioner_r.Prelude.{
  [], arith, if◌then◌else◌, leb, length, ltb, refl, some, suc, ℕ, ◌&&◌, ◌+◌, ◌<◌, ◌∷◌, ◌≡◌, ◌≤◌,
  List,
}

-- How many words have their center in `[from, to)`.
pub centered_in : ℕ → ℕ → List Word → ℕ
centered_in from to [] = 0
centered_in from to (w ∷ ws) =
    let rest = centered_in from to ws in
    if leb from (center w) && ltb (center w) to then suc rest else rest

-- How many words the chunks keep together.
pub kept : List Word → List AudioChunk → ℕ
unfolding retain_core_words
kept ws [] = 0
kept ws (c ∷ cs) = length (retain_core_words ws c) + kept ws cs

length-retain_core_words :
    (ws : List Word) (c : AudioChunk)
    → length (retain_core_words ws c) ≡ centered_in c.core_start_ms c.core_end_ms ws
unfolding retain_core_words centered_in
length-retain_core_words [] c = refl
length-retain_core_words (w ∷ ws) c = ground (arith, length-retain_core_words ws c)

centered_in-split :
    (a b c : ℕ) (ws : List Word)
    → a ≤ b
    → b ≤ c
    → centered_in a b ws + centered_in b c ws ≡ centered_in a c ws
unfolding centered_in
centered_in-split a b c [] h k = refl
centered_in-split a b c (w ∷ ws) h k = ground (arith, centered_in-split a b c ws h k)

centered_in-empty : (a : ℕ) (ws : List Word) → centered_in a a ws ≡ 0
unfolding centered_in
centered_in-empty a [] = refl
centered_in-empty a (w ∷ ws) = ground (arith, centered_in-empty a ws)

-- Chunks that are valid from `e` to `m` keep the words between them.
kept_of_chunks :
    (duration_ms i e m : ℕ) (ws : List Word) (cs : List AudioChunk)
    → validate_chunks duration_ms i e cs ≡ some m
    → (e ≤ m) × (kept ws cs ≡ centered_in e m ws)
unfolding kept validate_chunks
kept_of_chunks duration_ms i e m ws [] h = ground (arith, centered_in-empty e ws)
kept_of_chunks duration_ms i e m ws (c ∷ cs) h = ground (
  arith,
  kept_of_chunks duration_ms (suc i) c.core_end_ms m ws cs,
  length-retain_core_words ws c,
  centered_in-split e c.core_end_ms m ws,
)

validate-covers :
    (plan : ChunkPlan)
    → validate plan ≡ vc_ok tt
    → 0 < plan.duration_ms
    → validate_chunks plan.duration_ms 0 0 plan.chunks ≡ some plan.duration_ms
unfolding validate validate_options
validate-covers plan h p = ground arith

-- The chunks of a validated plan of audio that is not empty keep together just as many of any
-- words as have their center before the end: a single word with its center there is kept by
-- exactly one.
pub kept_once :
    (plan : ChunkPlan) (ws : List Word)
    → validate plan ≡ vc_ok tt
    → 0 < plan.duration_ms
    → kept ws plan.chunks ≡ centered_in 0 plan.duration_ms ws
kept_once plan ws h p =
    (kept_of_chunks plan.duration_ms 0 0 plan.duration_ms ws plan.chunks
      (validate-covers plan h p)).1
