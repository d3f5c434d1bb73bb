-- ===== src/Subtitle/RuleSplit/Tiling.antt =====
-- crates/domain/src/subtitle/split.rs: the ranges of a rule split cover the words.
use video_captioner_r.Subtitle.Word.{Word, RangeUsize}
use video_captioner_r.Subtitle.Transcript.Resplit.{Tiles}
use video_captioner_r.Subtitle.RuleSplit.{gaps, RuleSplitConfig, max_words}
use video_captioner_r.Subtitle.RuleSplit.Ranges.{
  rule_ranges, merge_short_ranges, merge_behind, last_is, can_merge, all_cuts, cut_end,
  split_oversized, expand, primary_cuts, cuts_behind,
}
use video_captioner_r.Prelude.{
  eq→==, true, Bool-cases, List, [], arith, inl, inr, leb, length, lt→leb_false, max, refl, subst,
  suc, sym, zero, ℕ, ◌++◌, ◌+◌, ◌-◌, ◌<◌, ◌∷◌, ◌≡◌, ◌≤◌,
}

pub Tiles-append :
    (from mid to : ℕ) (xs ys : List RangeUsize)
    → mid ≤ to
    → Tiles from mid xs
    → Tiles mid to ys
    → Tiles from to (xs ++ ys)
unfolding Tiles
Tiles-append from mid to [] ys le e t = subst (λ k. Tiles k to ys) (sym e) t
Tiles-append from mid to (x ∷ xs) ys le (s, ne, b, t) u =
    (s, ne, omega arith, Tiles-append x.end mid to xs ys le t u)

cut_end_bounds :
    (cfg : RuleSplitConfig) (words : List Word) (start end : ℕ)
    → 1 < end - start
    → (start < cut_end cfg words start end) × (cut_end cfg words start end < end)
unfolding cut_end
cut_end_bounds cfg words start end h = omega arith

-- Enough rounds are given, and the parts follow each other.
pub split_oversized-Tiles :
    (cfg : RuleSplitConfig) (words : List Word) (fuel start end : ℕ)
    → start < end
    → end - start ≤ fuel
    → Tiles start end (split_oversized cfg words fuel start end)
unfolding split_oversized Tiles
split_oversized-Tiles cfg words zero start end ne h = absurd (omega arith)
split_oversized-Tiles cfg words (suc fuel) start end ne h =
    elim (Bool-cases (leb (end - start) (max (max_words cfg) 1))) [
      | inl e ↦ rw (e, split_oversized) (refl, ne, omega arith, refl)
      | inr e ↦
          let bounds = cut_end_bounds cfg words start end (ground arith) in
          rw (e, split_oversized)
            (Tiles-append start (cut_end cfg words start end) end
              (split_oversized cfg words fuel start (cut_end cfg words start end))
              (split_oversized cfg words fuel (cut_end cfg words start end) end) (omega arith)
              (split_oversized-Tiles cfg words fuel start (cut_end cfg words start end) bounds.0
                (omega arith))
              (split_oversized-Tiles cfg words fuel (cut_end cfg words start end) end bounds.1
                (omega arith)))
    ]

-- Cuts above `prev` that rise up to `n`.
Rises : ℕ → ℕ → List ℕ → Type 0
Rises prev n [] = prev ≡ n
Rises prev n (c ∷ cs) = (prev < c) × (c ≤ n) × Rises c n cs

expand-Tiles :
    (cfg : RuleSplitConfig) (words : List Word) (n prev : ℕ) (cuts : List ℕ)
    → Rises prev n cuts
    → Tiles prev n (expand cfg words prev cuts)
unfolding Rises expand Tiles
expand-Tiles cfg words n prev [] h = h
expand-Tiles cfg words n prev (end ∷ cuts) (lt, le, h) =
    rw (lt→leb_false end prev lt, expand)
      (Tiles-append prev end n (split_oversized cfg words (end - prev) prev end)
        (expand cfg words end cuts) le
        (split_oversized-Tiles cfg words (end - prev) prev end lt (omega arith))
        (expand-Tiles cfg words n end cuts h))

cuts-Rises :
    (cfg : RuleSplitConfig) (gs : List ℕ) (i start : ℕ) (w : Word) (ws : List Word)
    → start ≤ i
    → Rises start (i + length (w ∷ ws)) (primary_cuts cfg gs i start (w ∷ ws))
unfolding Rises primary_cuts cuts_behind
cuts-Rises cfg gs i start w [] h = ground arith
cuts-Rises cfg gs i start w (v ∷ ws) h =
    ground (arith, cuts-Rises cfg gs (i + 1) start v ws, cuts-Rises cfg gs (i + 1) (i + 1) v ws)

Rises-last : (prev n : ℕ) (cuts : List ℕ) → prev < n → Rises prev n cuts → last_is n cuts ≡ true
unfolding Rises
Rises-last prev n [] lt h = absurd (omega arith)
Rises-last prev n (c ∷ []) lt (up, le, e) = eq→== c n e
Rises-last prev n (c ∷ d ∷ cs) lt (up, le, (more, le', h)) =
    Rises-last c n (d ∷ cs) (omega arith) (more, le', h)

all_cuts-Rises :
    (cfg : RuleSplitConfig) (w : Word) (ws : List Word)
    → Rises 0 (length (w ∷ ws)) (all_cuts cfg (w ∷ ws))
unfolding all_cuts
all_cuts-Rises cfg w ws =
    let cuts = primary_cuts cfg (gaps (w ∷ ws)) 0 0 (w ∷ ws) in
    let rises : Rises 0 (length (w ∷ ws)) cuts =
      subst (λ n. Rises 0 n cuts) (omega arith)
        (cuts-Rises cfg (gaps (w ∷ ws)) 0 0 w ws (omega arith)) in
    rw (Rises-last 0 (length (w ∷ ws)) cuts (omega arith) rises, all_cuts) rises

merge_behind-Tiles :
    (cfg : RuleSplitConfig) (words : List Word) (from to : ℕ) (last : RangeUsize)
    (rs : List RangeUsize)
    → Tiles from to (last ∷ rs)
    → Tiles from to (merge_behind cfg words last rs)
unfolding merge_behind Tiles
merge_behind-Tiles cfg words from to last [] t = t
merge_behind-Tiles cfg words from to last (r ∷ rs) (s, ne, le, (s', ne', le', t)) =
    elim (Bool-cases (can_merge cfg words last r)) [
      | inl e ↦
          rw (e, merge_behind)
            (merge_behind-Tiles cfg words from to (record last { end = r.end }) rs
              (s, omega arith, le', t))
      | inr e ↦
          rw (e, merge_behind)
            (s, ne, le, merge_behind-Tiles cfg words last.end to r rs (s', ne', le', t))
    ]

merge-Tiles :
    (cfg : RuleSplitConfig) (words : List Word) (from to : ℕ) (rs : List RangeUsize)
    → Tiles from to rs
    → Tiles from to (merge_short_ranges cfg words rs)
unfolding merge_short_ranges
merge-Tiles cfg words from to [] t = t
merge-Tiles cfg words from to (r ∷ rs) t = merge_behind-Tiles cfg words from to r rs t

-- The ranges of a transcript with words tile them.
pub rule_ranges-Tiles :
    (cfg : RuleSplitConfig) (w : Word) (ws : List Word)
    → Tiles 0 (length (w ∷ ws)) (rule_ranges cfg (w ∷ ws))
unfolding rule_ranges
rule_ranges-Tiles cfg w ws =
    merge-Tiles cfg (w ∷ ws) 0 (length (w ∷ ws)) (expand cfg (w ∷ ws) 0 (all_cuts cfg (w ∷ ws))) (
      expand-Tiles cfg (w ∷ ws) (length (w ∷ ws)) 0 (all_cuts cfg (w ∷ ws))
        (all_cuts-Rises cfg w ws))
