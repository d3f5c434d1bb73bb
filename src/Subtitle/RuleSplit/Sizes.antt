-- ===== src/Subtitle/RuleSplit/Sizes.antt =====
-- crates/domain/src/subtitle/split.rs: how many words a range has.
use video_captioner_r.Subtitle.Word.{Word, RangeUsize}
use video_captioner_r.Subtitle.RuleSplit.{RuleSplitConfig, max_words}
use video_captioner_r.Subtitle.RuleSplit.Ranges.{
  len, cut_end, split_oversized, expand, all_cuts, merge_behind, merge_short_ranges, can_merge,
  rule_ranges,
}
use video_captioner_r.Prelude.{
  All, Bool-cases, List, [], arith, inl, inr, leb, max, suc, true, zero, ℕ, ◌*◌, ◌++◌, ◌-◌, ◌∷◌,
  ◌≡◌, ◌≤◌,
}

All-append : {A : Type 0} (P : A → Type 0) (xs ys : List A) → All P xs → All P ys → All P (xs ++ ys)
All-append P [] ys a b = b
All-append P (x ∷ xs) ys (p, a) b = (p, All-append P xs ys a b)

-- At most `most` words.
abbrev pub AtMost : ℕ → RangeUsize → Type 0
AtMost most r = len r ≤ most

split_oversized-AtMost :
    (cfg : RuleSplitConfig) (words : List Word) (fuel start end : ℕ)
    → All (AtMost (max (max_words cfg) 1)) (split_oversized cfg words fuel start end)
unfolding split_oversized
split_oversized-AtMost cfg words zero start end = tt
split_oversized-AtMost cfg words (suc fuel) start end =
    elim (Bool-cases (leb (end - start) (max (max_words cfg) 1))) [
      | inl e ↦ rw (e, split_oversized) (ground arith, tt)
      | inr e ↦
          rw (e, split_oversized)
            (All-append (AtMost (max (max_words cfg) 1))
              (split_oversized cfg words fuel start (cut_end cfg words start end))
              (split_oversized cfg words fuel (cut_end cfg words start end) end)
              (split_oversized-AtMost cfg words fuel start (cut_end cfg words start end))
              (split_oversized-AtMost cfg words fuel (cut_end cfg words start end) end))
    ]

expand-AtMost :
    (cfg : RuleSplitConfig) (words : List Word) (prev : ℕ) (cuts : List ℕ)
    → All (AtMost (max (max_words cfg) 1)) (expand cfg words prev cuts)
unfolding expand
expand-AtMost cfg words prev [] = tt
expand-AtMost cfg words prev (end ∷ cuts) = elim (Bool-cases (leb end prev)) [
  | inl e ↦ rw (e, expand) (expand-AtMost cfg words prev cuts)
  | inr e ↦
      rw (e, expand)
        (All-append (AtMost (max (max_words cfg) 1))
          (split_oversized cfg words (end - prev) prev end) (expand cfg words end cuts)
          (split_oversized-AtMost cfg words (end - prev) prev end)
          (expand-AtMost cfg words end cuts))
]

can_merge_bound :
    (cfg : RuleSplitConfig) (words : List Word) (last r : RangeUsize)
    → can_merge cfg words last r ≡ true
    → r.end - last.start ≤ max_words cfg * 2
unfolding can_merge
can_merge_bound cfg words last r h = ground arith

merge_behind-AtMost :
    (cfg : RuleSplitConfig) (words : List Word) (last : RangeUsize) (rs : List RangeUsize)
    → AtMost (max (max_words cfg * 2) 1) last
    → All (AtMost (max (max_words cfg) 1)) rs
    → All (AtMost (max (max_words cfg * 2) 1)) (merge_behind cfg words last rs)
unfolding merge_behind
merge_behind-AtMost cfg words last [] h a = (h, tt)
merge_behind-AtMost cfg words last (r ∷ rs) h (b, a) =
    elim (Bool-cases (can_merge cfg words last r)) [
      | inl e ↦
          rw (e, merge_behind)
            (merge_behind-AtMost cfg words (record last { end = r.end }) rs
              (omega (arith, can_merge_bound cfg words last r e)) a)
      | inr e ↦ rw (e, merge_behind) (h, merge_behind-AtMost cfg words r rs (omega arith) a)
    ]

-- No range of the rules has more words than twice the maximum, or one word where that is zero.
pub rule_ranges-AtMost :
    (cfg : RuleSplitConfig) (words : List Word)
    → All (AtMost (max (max_words cfg * 2) 1)) (rule_ranges cfg words)
unfolding rule_ranges merge_short_ranges
rule_ranges-AtMost cfg words =
    merged (expand cfg words 0 (all_cuts cfg words))
      (expand-AtMost cfg words 0 (all_cuts cfg words))
  where
    merged :
        (rs : List RangeUsize)
        → All (AtMost (max (max_words cfg) 1)) rs
        → All (AtMost (max (max_words cfg * 2) 1)) (merge_short_ranges cfg words rs)
    merged [] a = tt
    merged (r ∷ rs) (b, a) = merge_behind-AtMost cfg words r rs (omega arith) a
