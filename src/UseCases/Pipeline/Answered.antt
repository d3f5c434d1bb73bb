-- ===== src/UseCases/Pipeline/Answered.antt =====
-- crates/core/src/use_cases/llm_pipeline/service.rs: every cue of a batch is answered or degraded.
use video_captioner_r.UseCases.Pipeline.{CueInput, BatchInput, PipelineError, can_isolate}
use video_captioner_r.UseCases.Pipeline.Checks.{keys}
use video_captioner_r.UseCases.Pipeline.Isolation.{Results, ids_of, rounds_of, halves, isolate}
use video_captioner_r.Prelude.{
  true, ◌∙◌, Bool-cases, ltb, Bool, Sum-cases, ap, arith, drop, false, inl, inr, length, refl,
  subst, suc, take, zero, ◌++◌, ◌+◌, ◌-◌, ◌/◌, ◌<◌, ◌==◌, ◌||◌, ◌∷◌, ◌≡◌, ◌≤◌, ◌⊎◌, List, ℕ, String,
  [], has,
}

-- Whether a cue has a text or is degraded.
abbrev pub known : ℕ → Results → Bool
known id (accepted, degraded) = has ◌==◌ id (keys accepted) || has ◌==◌ id degraded

abbrev pub asked : ℕ → List BatchInput → Bool
asked id [] = false
asked id (b ∷ bs) = has ◌==◌ id (ids_of b.output) || asked id bs

has-append : (id : ℕ) (xs ys : List ℕ) → has ◌==◌ id (xs ++ ys) ≡ (has ◌==◌ id xs || has ◌==◌ id ys)
has-append id [] ys = refl
has-append id (x ∷ xs) ys = ground (arith, has-append id xs ys)

keys-append : (xs ys : List (ℕ × String)) → keys (xs ++ ys) ≡ keys xs ++ keys ys
keys-append [] ys = refl
keys-append (x ∷ xs) ys = ap (◌∷◌ x.0) (keys-append xs ys)

-- Halving a list loses no id.
asked-halves :
    (id n : ℕ) (cues : List CueInput)
    → (has ◌==◌ id (ids_of (take n cues)) || has ◌==◌ id (ids_of (drop n cues)))
      ≡ has ◌==◌ id (ids_of cues)
asked-halves id zero cues = refl
asked-halves id (suc n) [] = refl
asked-halves id (suc n) (c ∷ cs) = ground (arith, asked-halves id n cs)

length-halves :
    (n : ℕ) (cues : List CueInput)
    → n ≤ length cues
    → (length (take n cues) ≡ n) × (length (drop n cues) ≡ length cues - n)
length-halves zero cues h = (refl, omega arith)
length-halves (suc n) [] h = absurd (omega arith)
length-halves (suc n) (c ∷ cs) h =
    let (a, b) = length-halves n cs (omega arith) in (omega (arith, a), omega (arith, b))

abbrev rounds : List BatchInput → ℕ
rounds [] = 0
rounds (b ∷ bs) = rounds_of b + rounds bs

rounds-halves :
    (b : BatchInput)
    → 1 < length b.output
    → rounds_of (halves b).0 + rounds_of (halves b).1 < rounds_of b
rounds-halves b h =
    let (x, y) = length-halves (length b.output / 2) b.output (omega arith) in omega (arith, x, y)

-- What each round changes of what is known, with `x` of what is still asked.
known_accepted :
    (id : ℕ) (items accepted : List (ℕ × String)) (degraded : List ℕ) (cues : List CueInput)
    (x : Bool)
    → has ◌==◌ id (keys items) ≡ has ◌==◌ id (ids_of cues)
    → (known id (items ++ accepted, degraded) || x)
      ≡ (known id (accepted, degraded) || (has ◌==◌ id (ids_of cues) || x))
known_accepted id items accepted degraded cues x e =
    rw (keys-append items accepted, has-append id (keys items) (keys accepted), e) (ground arith)

known_degraded :
    (id : ℕ) (accepted : List (ℕ × String)) (degraded : List ℕ) (cues : List CueInput) (x : Bool)
    → (known id (accepted, degraded ++ ids_of cues) || x)
      ≡ (known id (accepted, degraded) || (has ◌==◌ id (ids_of cues) || x))
known_degraded id accepted degraded cues x =
    rw (has-append id degraded (ids_of cues)) (ground arith)

module _ (answer : ℕ → BatchInput → PipelineError ⊎ List (ℕ × String)) (id : ℕ) where
  -- A request for the cue alone is refused.
  abbrev pub Alone : Type 0
  Alone =
      (t : ℕ) × (b : BatchInput) × (error : PipelineError) × (length b.output ≤ 1)
      × (has ◌==◌ id (ids_of b.output) ≡ true)
      × (answer t b ≡ inl error)
      × (can_isolate error ≡ true)

  -- How a loop may end for one cue: with an error of one request that halving does not help, or with
  -- the cue known just if it is expected, and degraded just if it `was` or is refused alone.
  unfoldable pub Settled : (expected was : Bool) → PipelineError ⊎ Results → Type 0
  Settled expected was (inl e) =
      (t : ℕ) × (b : BatchInput) × (answer t b ≡ inl e) × (can_isolate e ≡ false)
  Settled expected was (inr done) =
      (known id done ≡ expected) × ((has ◌==◌ id done.1 ≡ was) ⊎ Alone)

  given_up_Settled :
      (t : ℕ) (b : BatchInput) (error : PipelineError) (expected : Bool) (degraded : List ℕ)
      (result : PipelineError ⊎ Results)
      → length b.output ≤ 1
      → answer t b ≡ inl error
      → can_isolate error ≡ true
      → Settled expected (has ◌==◌ id (degraded ++ ids_of b.output)) result
      → Settled expected (has ◌==◌ id degraded) result
  unfolding Settled
  given_up_Settled t b error expected degraded (inl e) l a c s = s
  given_up_Settled t b error expected degraded (inr done) l a c (k, inr alone) = (k, inr alone)
  given_up_Settled t b error expected degraded (inr done) l a c (k, inl same) =
      elim (Bool-cases (has ◌==◌ id (ids_of b.output))) [
        | inl h ↦ (k, inr (t, b, error, l, h, a, c))
        | inr h ↦ (k, inl (same ∙ has-append id degraded (ids_of b.output) ∙ rw h (ground arith)))
      ]

  module _
      (answers : (t : ℕ) (b : BatchInput) (items : List (ℕ × String))
        → answer t b ≡ inr items
        → has ◌==◌ id (keys items) ≡ has ◌==◌ id (ids_of b.output)) where
    pub isolate-Settled :
        (fuel t : ℕ) (pending : List BatchInput) (done : Results)
        → rounds pending ≤ fuel
        → Settled
            (known id done || asked id pending)
            (has ◌==◌ id done.1)
            (isolate answer fuel t pending done)
    unfolding isolate Settled
    isolate-Settled zero t [] done h = (ground arith, inl refl)
    isolate-Settled zero t (b ∷ bs) done h = absurd (omega arith)
    isolate-Settled (suc fuel) t [] done h = (ground arith, inl refl)
    isolate-Settled (suc fuel) t (b ∷ bs) (accepted, degraded) h = elim (Sum-cases (answer t b)) [
      | inr (items, e) ↦
          rw (e, isolate)
            (subst
              (λ x.
                Settled x (has ◌==◌ id degraded)
                  (isolate answer fuel (t + 1) bs (items ++ accepted, degraded)))
              (known_accepted id items accepted degraded b.output (asked id bs)
                (answers t b items e))
              (isolate-Settled fuel (t + 1) bs (items ++ accepted, degraded) (omega arith)))
      | inl (error, e) ↦ elim (Bool-cases (can_isolate error)) [
        | inr f ↦ rw (e, f, isolate) (t, b, e, f)
        | inl f ↦ elim (Bool-cases (ltb 1 (length b.output))) [
          | inl g ↦
              let (first, second) = halves b in
              rw (e, f, g, isolate)
                (subst
                  (λ x.
                    Settled x (has ◌==◌ id degraded)
                      (isolate answer fuel (t + 1) (first ∷ second ∷ bs) (accepted, degraded)))
                  (ground (arith, asked-halves id (length b.output / 2) b.output))
                  (isolate-Settled fuel (t + 1) (first ∷ second ∷ bs) (accepted, degraded)
                    (omega (arith, rounds-halves b (ground arith)))))
          | inr g ↦
              let later = isolate answer fuel (t + 1) bs (accepted, degraded ++ ids_of b.output) in
              rw (e, f, g, isolate)
                (given_up_Settled t b error (known id (accepted, degraded) || asked id (b ∷ bs))
                  degraded later (ground arith) e f
                  (subst (λ x. Settled x (has ◌==◌ id (degraded ++ ids_of b.output)) later)
                    (known_degraded id accepted degraded b.output (asked id bs))
                    (isolate-Settled fuel (t + 1) bs (accepted, degraded ++ ids_of b.output)
                      (omega arith))))
        ]
      ]
    ]
