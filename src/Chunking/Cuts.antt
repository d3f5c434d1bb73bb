-- ===== src/Chunking/Cuts.antt =====
-- Where `choose_cut` of crates/core/src/chunking.rs cuts.
use video_captioner_r.Chunking.{
  single_chunk, silence, low_energy, forced, end_of_audio, choose_cut, CutReason, ChunkPlanOptions,
  silence_cmp, energy_cmp, SilenceRegion, EnergySample, clip, clips, in_window,
}
use video_captioner_r.Prelude.{
  Bool-cases, get_elem?, leb, max, min, suc, ◌&&◌, ◌+◌, ◌-◌, ◌/◌, fold_min, fold_min-All,
  fold_min-least, refl, abs_diff, f32_key, pick, ◌<◌, ◌⊎◌, All, List, Option-cases, [], arith, inl,
  inr, some, ℕ, ◌∷◌, ◌≡◌, ◌≤◌,
}

abbrev Inside : ℕ → ℕ → ℕ × ℕ → Type 0
Inside lower upper c = (lower ≤ c.1) × (c.1 ≤ upper)

clip-Inside :
    (lower upper min_silence_ms : ℕ) (r : SilenceRegion) (c : ℕ × ℕ)
    → clip lower upper min_silence_ms r ≡ some c
    → Inside lower upper c
unfolding clip
clip-Inside lower upper min_silence_ms r c h = ground arith

clips-Inside :
    (lower upper min_silence_ms : ℕ) (rs : List SilenceRegion)
    → All (Inside lower upper) (clips lower upper min_silence_ms rs)
unfolding clips
clips-Inside lower upper min_silence_ms [] = tt
clips-Inside lower upper min_silence_ms (r ∷ rs) =
    elim (Option-cases (clip lower upper min_silence_ms r)) [
      | inl e ↦ rw (e, clips) (clips-Inside lower upper min_silence_ms rs)
      | inr (c, e) ↦
          rw (e, clips)
            (
              clip-Inside lower upper min_silence_ms r c e,
              clips-Inside lower upper min_silence_ms rs,
            )
    ]

-- The part of a silence inside the window, not shorter than the minimum, by its length and middle.
abbrev Clipped : ℕ → ℕ → ℕ → SilenceRegion → ℕ × ℕ → Type 0
Clipped lower upper min_silence_ms r (len, middle) =
    let start = max r.start_ms lower in
    let end = min r.end_ms upper in
    (start < end)
    × (min_silence_ms ≤ len)
    × (len ≡ end - start)
    × (middle ≡ start + (end - start) / 2)

clip-Clipped :
    (lower upper min_silence_ms : ℕ) (r : SilenceRegion) (c : ℕ × ℕ)
    → clip lower upper min_silence_ms r ≡ some c
    → Clipped lower upper min_silence_ms r c
unfolding clip
clip-Clipped lower upper min_silence_ms r c h = ground arith

-- A silence that is given, as it lies in the window.
abbrev pub Given : ℕ → ℕ → ℕ → List SilenceRegion → ℕ × ℕ → Type 0
Given lower upper min_silence_ms rs c =
    (i : ℕ) × (r : SilenceRegion) × (get_elem? rs i ≡ some r)
    × Clipped lower upper min_silence_ms r c

later_Given :
    (lower upper min_silence_ms : ℕ) (r : SilenceRegion) (rs : List SilenceRegion)
    (cs : List (ℕ × ℕ))
    → All (Given lower upper min_silence_ms rs) cs
    → All (Given lower upper min_silence_ms (r ∷ rs)) cs
later_Given lower upper min_silence_ms r rs [] a = tt
later_Given lower upper min_silence_ms r rs (c ∷ cs) ((i, region, e, k), a) =
    ((suc i, region, e, k), later_Given lower upper min_silence_ms r rs cs a)

clips-Given :
    (lower upper min_silence_ms : ℕ) (rs : List SilenceRegion)
    → All (Given lower upper min_silence_ms rs) (clips lower upper min_silence_ms rs)
unfolding clips
clips-Given lower upper min_silence_ms [] = tt
clips-Given lower upper min_silence_ms (r ∷ rs) =
    let others =
      later_Given lower upper min_silence_ms r rs (clips lower upper min_silence_ms rs)
        (clips-Given lower upper min_silence_ms rs) in
    elim (Option-cases (clip lower upper min_silence_ms r)) [
      | inl e ↦ rw (e, clips) others
      | inr (c, e) ↦
          rw (e, clips) ((0, r, refl, clip-Clipped lower upper min_silence_ms r c e), others)
    ]

-- A sample that is given and lies in the window.
abbrev pub Sampled : ℕ → ℕ → List EnergySample → EnergySample → Type 0
Sampled lower upper ss s =
    (i : ℕ) × (get_elem? ss i ≡ some s) × (lower ≤ s.at_ms) × (s.at_ms ≤ upper)

later_Sampled :
    (lower upper : ℕ) (t : EnergySample) (ss cs : List EnergySample)
    → All (Sampled lower upper ss) cs
    → All (Sampled lower upper (t ∷ ss)) cs
later_Sampled lower upper t ss [] a = tt
later_Sampled lower upper t ss (c ∷ cs) ((i, e, k, l), a) =
    ((suc i, e, k, l), later_Sampled lower upper t ss cs a)

in_window-Sampled :
    (lower upper : ℕ) (ss : List EnergySample)
    → All (Sampled lower upper ss) (in_window lower upper ss)
unfolding in_window
in_window-Sampled lower upper [] = tt
in_window-Sampled lower upper (s ∷ ss) =
    let others =
      later_Sampled lower upper s ss (in_window lower upper ss)
        (in_window-Sampled lower upper ss) in
    elim (Bool-cases (leb lower s.at_ms && leb s.at_ms upper)) [
      | inl e ↦ rw (e, in_window) ((0, refl, ground arith, ground arith), others)
      | inr e ↦ rw (e, in_window) others
    ]

-- `c` is at least as good a silence as `d`: longer, or as long and not further from the target.
abbrev Better : ℕ → ℕ × ℕ → ℕ × ℕ → Type 0
Better target c d = (d.0 < c.0) ⊎ ((d.0 ≡ c.0) × (abs_diff c.1 target ≤ abs_diff d.1 target))

-- `s` is at least as good a sample as `t`: quieter, or as quiet and not further from the target.
abbrev Quieter : ℕ → EnergySample → EnergySample → Type 0
Quieter target s t =
    (f32_key s.energy < f32_key t.energy)
    ⊎ ((f32_key s.energy ≡ f32_key t.energy) × (abs_diff s.at_ms target ≤ abs_diff t.at_ms target))

lex_trans :
    (a b c x y z : ℕ)
    → (a < b) ⊎ ((a ≡ b) × (x ≤ y))
    → (b < c) ⊎ ((b ≡ c) × (y ≤ z))
    → (a < c) ⊎ ((a ≡ c) × (x ≤ z))
lex_trans a b c x y z h k = grind arith

lex_trans_down :
    (a b c x y z : ℕ)
    → (b < a) ⊎ ((b ≡ a) × (x ≤ y))
    → (c < b) ⊎ ((c ≡ b) × (y ≤ z))
    → (c < a) ⊎ ((c ≡ a) × (x ≤ z))
lex_trans_down a b c x y z h k = grind arith

pick-Better :
    (target : ℕ) (c d : ℕ × ℕ)
    → Better target (pick (silence_cmp target) c d) c
      × Better target (pick (silence_cmp target) c d) d
pick-Better target c d = ground arith

pick-Quieter :
    (target : ℕ) (s t : EnergySample)
    → Quieter target (pick (energy_cmp target) s t) s
      × Quieter target (pick (energy_cmp target) s t) t
pick-Quieter target s t = ground arith

Better-least :
    (target : ℕ) (c : ℕ × ℕ) (cs : List (ℕ × ℕ))
    → All (Better target (fold_min (silence_cmp target) c cs)) (c ∷ cs)
Better-least target c cs =
    fold_min-least (silence_cmp target) (Better target) c cs (λ a. inr (refl, omega arith))
      (λ a b d h k.
        lex_trans_down a.0 b.0 d.0 (abs_diff a.1 target) (abs_diff b.1 target) (abs_diff d.1 target)
          h k)
      (pick-Better target)

Quieter-least :
    (target : ℕ) (s : EnergySample) (ss : List EnergySample)
    → All (Quieter target (fold_min (energy_cmp target) s ss)) (s ∷ ss)
Quieter-least target s ss =
    fold_min-least (energy_cmp target) (Quieter target) s ss (λ a. inr (refl, omega arith))
      (λ a b d h k.
        lex_trans (f32_key a.energy) (f32_key b.energy) (f32_key d.energy) (abs_diff a.at_ms target)
          (abs_diff b.at_ms target) (abs_diff d.at_ms target) h k)
      (pick-Quieter target)

-- Whether a cut and its reason follow the ranking: a best silence of the window, else a quietest
-- sample of it, else the target.
abbrev pub Ranked :
    ℕ → ℕ → ℕ → List SilenceRegion → List EnergySample → ChunkPlanOptions → ℕ × CutReason → Type 0
Ranked target lower upper silences energy options (cut, silence) =
    (c : ℕ × ℕ) × (cut ≡ c.1)
    × Inside lower upper c
    × Given lower upper options.min_silence_ms silences c
    × All (Better target c) (clips lower upper options.min_silence_ms silences)
Ranked target lower upper silences energy options (cut, low_energy) =
    (s : EnergySample) × (cut ≡ s.at_ms)
    × (clips lower upper options.min_silence_ms silences ≡ [])
    × Sampled lower upper energy s
    × All (Quieter target s) (in_window lower upper energy)
Ranked target lower upper silences energy options (cut, forced) =
    (cut ≡ target)
    × (clips lower upper options.min_silence_ms silences ≡ [])
    × (in_window lower upper energy ≡ [])
Ranked target lower upper silences energy options (cut, single_chunk) = ⊥
Ranked target lower upper silences energy options (cut, end_of_audio) = ⊥

Ranked-energy :
    (target lower upper : ℕ) (silences : List SilenceRegion) (energy : List EnergySample)
    (options : ChunkPlanOptions) (ss : List EnergySample)
    → clips lower upper options.min_silence_ms silences ≡ []
    → in_window lower upper energy ≡ ss
    → Ranked target lower upper silences energy options
        (choose_cut target lower upper silences energy options)
unfolding choose_cut
Ranked-energy target lower upper silences energy options [] c e =
    rw (c, choose_cut) (rw (e, choose_cut) (refl, c, e))
Ranked-energy target lower upper silences energy options (s ∷ ss) c e =
    let inside = rw e at (in_window-Sampled lower upper energy) in
    rw (c, choose_cut)
      (rw (e, choose_cut)
        (
          fold_min (energy_cmp target) s ss,
          refl,
          c,
          fold_min-All (energy_cmp target) (Sampled lower upper energy) s ss inside.0 inside.1,
          rw e (Quieter-least target s ss),
        ))

Ranked-silence :
    (target lower upper : ℕ) (silences : List SilenceRegion) (energy : List EnergySample)
    (options : ChunkPlanOptions) (cs : List (ℕ × ℕ))
    → clips lower upper options.min_silence_ms silences ≡ cs
    → Ranked target lower upper silences energy options
        (choose_cut target lower upper silences energy options)
unfolding choose_cut
Ranked-silence target lower upper silences energy options [] e =
    Ranked-energy target lower upper silences energy options (in_window lower upper energy) e refl
Ranked-silence target lower upper silences energy options (c ∷ cs) e =
    let inside = rw e at (clips-Inside lower upper options.min_silence_ms silences) in
    let given = rw e at (clips-Given lower upper options.min_silence_ms silences) in
    rw (e, choose_cut)
      (
        fold_min (silence_cmp target) c cs,
        refl,
        fold_min-All (silence_cmp target) (Inside lower upper) c cs inside.0 inside.1,
        fold_min-All (silence_cmp target) (Given lower upper options.min_silence_ms silences) c cs
            given.0 given.1,
        rw e (Better-least target c cs),
      )

-- A cut is the middle of the part inside the window of one of the silences given, not shorter
-- than the minimum, and no silence there is longer, or as long and nearer to the target; where
-- there is none, it is at one of the energy samples given that lie in the window, and no sample
-- there is quieter, or as quiet and nearer; where there is none either, it is the target.
pub choose_cut-Ranked :
    (target lower upper : ℕ) (silences : List SilenceRegion) (energy : List EnergySample)
    (options : ChunkPlanOptions)
    → Ranked target lower upper silences energy options
        (choose_cut target lower upper silences energy options)
choose_cut-Ranked target lower upper silences energy options =
    Ranked-silence target lower upper silences energy options _ refl

inside_of_Ranked :
    (target lower upper : ℕ) (silences : List SilenceRegion) (energy : List EnergySample)
    (options : ChunkPlanOptions) (r : ℕ × CutReason)
    → Ranked target lower upper silences energy options r
    → (r.0 ≡ target) ⊎ ((lower ≤ r.0) × (r.0 ≤ upper))
inside_of_Ranked target lower upper silences energy options (cut, silence) (c, e, i, g, b) =
    inr (omega arith)
inside_of_Ranked target lower upper silences energy options (cut, low_energy)
      (s, e, c, (i, g, k, l), q) =
    inr (omega arith)
inside_of_Ranked target lower upper silences energy options (cut, forced) (e, c, w) = inl e
inside_of_Ranked target lower upper silences energy options (cut, single_chunk) r = absurd r
inside_of_Ranked target lower upper silences energy options (cut, end_of_audio) r = absurd r

-- Every cut is the target or lies in the window.
pub choose_cut_inside :
    (target lower upper : ℕ) (silences : List SilenceRegion) (energy : List EnergySample)
    (options : ChunkPlanOptions)
    → let cut = (choose_cut target lower upper silences energy options).0 in
      (cut ≡ target) ⊎ ((lower ≤ cut) × (cut ≤ upper))
choose_cut_inside target lower upper silences energy options =
    inside_of_Ranked target lower upper silences energy options _
      (choose_cut-Ranked target lower upper silences energy options)
