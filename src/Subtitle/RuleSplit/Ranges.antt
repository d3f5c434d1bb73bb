-- ===== src/Subtitle/RuleSplit/Ranges.antt =====
-- crates/domain/src/subtitle/split.rs: the ranges of words that become cues, and the split.
use video_captioner_r.Subtitle.Word.{Word, RangeUsize}
use video_captioner_r.Subtitle.Joiner.{join_word_texts}
use video_captioner_r.Subtitle.Transcript.{Transcript, Cue, rule_split as from_rules, no_flags}
use video_captioner_r.Subtitle.Transcript.Validate.{validated}
use video_captioner_r.Subtitle.Transcript.Edits.{bump_revision, allocate_cue_id}
use video_captioner_r.Subtitle.Transcript.Split.{is_asr, is_empty}
use video_captioner_r.Subtitle.RuleSplit.{
  RuleSplitConfig, max_words, gaps, gap_at, ends_sentence, unusual_gap, is_soft_break_word,
  detect_cjk_from_words,
}
use video_captioner_r.Prelude.{
  Bool, List, Option, Result, [], drop, err, false, get_elem?, if◌then◌else◌, invalid_argument, leb,
  length, ltb, max, min, none, not, ok, some, suc, take, true, u64_max, zero, ℕ, ◌&&◌, ◌*◌, ◌++◌,
  ◌+◌, ◌-◌, ◌/◌, ◌==◌, ◌||◌, ◌∷◌, String,
}

abbrev pub range : ℕ → ℕ → RangeUsize
range s e = record { start = s; end = e }

-- A group ends behind word `i`: the last word, a large or unusual gap, the end of a sentence.
unfoldable pub cuts_behind : RuleSplitConfig → List ℕ → ℕ → Word → List Word → Bool
unfolding ends_sentence unusual_gap
cuts_behind cfg gs i w rest =
    is_empty rest
    || (leb cfg.rule_split_gap_ms (gap_at gs i)
        || (leb cfg.max_gap_ms (gap_at gs i)
            || (ends_sentence w.text
                || unusual_gap gs i cfg.time_gap_window cfg.time_gap_multiplier)))

-- The loop over the words from `i` on, the current group having begun at `start`.
unfoldable pub primary_cuts : RuleSplitConfig → List ℕ → ℕ → ℕ → List Word → List ℕ
unfolding cuts_behind
primary_cuts cfg gs i start [] = []
primary_cuts cfg gs i start (w ∷ ws) =
    let cut = cuts_behind cfg gs i w ws && ltb start (i + 1) in
    let rest = primary_cuts cfg gs (i + 1) (if cut then i + 1 else start) ws in
    if cut then (i + 1) ∷ rest else rest

abbrev pub last_is : ℕ → List ℕ → Bool
last_is n [] = false
last_is n (c ∷ []) = c == n
last_is n (c ∷ cs) = last_is n cs

unfoldable pub all_cuts : RuleSplitConfig → List Word → List ℕ
unfolding primary_cuts gaps
all_cuts cfg words =
    let cuts = primary_cuts cfg (gaps words) 0 0 words in
    if last_is (length words) cuts then cuts else cuts ++ length words ∷ []

abbrev clamp : ℕ → ℕ → ℕ → ℕ
clamp x low high = min (max x low) high

abbrev abs_diff : ℕ → ℕ → ℕ
abs_diff a b = (a - b) + (b - a)

unfoldable pub is_soft_at : List Word → ℕ → Bool
unfolding is_soft_break_word
is_soft_at words i = elim (get_elem? words i) [ none ↦ false | some w ↦ is_soft_break_word w.text ]

-- The soft break nearest to `mid` among `left` words from `i` on; the first of those as near.
unfoldable pub nearest_soft : List Word → ℕ → ℕ → ℕ → Option ℕ → Option ℕ
unfolding is_soft_at
nearest_soft words mid zero i best = best
nearest_soft words mid (suc left) i best =
    let nearer : Bool = elim best [
      | none ↦ true
      | some b ↦ ltb (abs_diff i mid) (abs_diff b mid)
    ] in
    nearest_soft words mid left (i + 1) (if is_soft_at words i && nearer then some i else best)

-- The words `low` to `high`, both included, when there are two at least.
unfoldable pub soft_between : List Word → ℕ → ℕ → Option ℕ
unfolding nearest_soft
soft_between words low high =
    if leb high low then none else nearest_soft words ((low + high) / 2) (high + 1 - low) low none

-- Where a group that is too long is cut: the end of its first part.
unfoldable pub cut_end : RuleSplitConfig → List Word → ℕ → ℕ → ℕ
unfolding is_soft_at soft_between
cut_end cfg words start end =
    let len = end - start in
    let prefer_lo = clamp (start + max (cfg.suffix_words len) 1) (start + 1) (end - 1) in
    let prefer_hi = clamp (start + min (cfg.prefix_words len) (len - 1)) prefer_lo (end - 1) in
    let forced = clamp (start + max (cfg.prefix_words len) 1) (start + 1) (end - 1) in
    let cut : ℕ = elim (soft_between words prefer_lo prefer_hi) [
      | some i ↦ i
      | none ↦ elim (soft_between words (start + 1) (end - 1)) [ some i ↦ i | none ↦ forced ]
    ] in
    clamp (if is_soft_at words cut then cut else cut + 1) (start + 1) (end - 1)

-- Both parts are shorter, so as many rounds as the group has words are enough.
unfoldable pub split_oversized : RuleSplitConfig → List Word → ℕ → ℕ → ℕ → List RangeUsize
unfolding cut_end
split_oversized cfg words zero start end = []
split_oversized cfg words (suc fuel) start end = elim (leb (end - start) (max (max_words cfg) 1)) [
  | true ↦ range start end ∷ []
  | false ↦
      let cut = cut_end cfg words start end in
      split_oversized cfg words fuel start cut ++ split_oversized cfg words fuel cut end
]

unfoldable pub expand : RuleSplitConfig → List Word → ℕ → List ℕ → List RangeUsize
unfolding split_oversized
expand cfg words prev [] = []
expand cfg words prev (end ∷ cuts) =
    if leb end prev
    then expand cfg words prev cuts
    else split_oversized cfg words (end - prev) prev end ++ expand cfg words end cuts

-- The gap between two ranges; `u64::MAX` where one is out of range.
abbrev gap_between : List Word → RangeUsize → RangeUsize → ℕ
gap_between words before r = elim (get_elem? words (before.end - 1)) [
  | none ↦ u64_max
  | some a ↦ elim (get_elem? words r.start) [
    | none ↦ u64_max
    | some b ↦ if before.end == 0 then u64_max else b.start_ms - a.end_ms
  ]
]

abbrev pub len : RangeUsize → ℕ
len r = r.end - r.start

unfoldable pub can_merge : RuleSplitConfig → List Word → RangeUsize → RangeUsize → Bool
can_merge cfg words before r =
    let gap = gap_between words before r in
    let very_short =
      leb (len before) cfg.merge_very_short_words || leb (len r) cfg.merge_very_short_words in
    let short = ltb (len before) cfg.merge_min_words || ltb (len r) cfg.merge_min_words in
    ((very_short && leb gap cfg.merge_very_short_gap_ms)
      || (short && leb gap cfg.merge_short_gap_ms))
    && leb (r.end - before.start) (min (max_words cfg * 2) u64_max)

-- `last` is the last range so far.
unfoldable pub merge_behind :
    RuleSplitConfig → List Word → RangeUsize → List RangeUsize → List RangeUsize
unfolding can_merge
merge_behind cfg words last [] = last ∷ []
merge_behind cfg words last (r ∷ rs) =
    let merges = can_merge cfg words last r in
    let rest = merge_behind cfg words (if merges then record last { end = r.end } else r) rs in
    if merges then rest else last ∷ rest

unfoldable pub merge_short_ranges : RuleSplitConfig → List Word → List RangeUsize → List RangeUsize
unfolding merge_behind
merge_short_ranges cfg words [] = []
merge_short_ranges cfg words (r ∷ rs) = merge_behind cfg words r rs

abbrev pub effective : List Word → RuleSplitConfig → RuleSplitConfig
unfolding detect_cjk_from_words
effective words cfg =
    if cfg.prefer_cjk then cfg else record cfg { prefer_cjk = detect_cjk_from_words words }

unfoldable pub rule_ranges : RuleSplitConfig → List Word → List RangeUsize
unfolding merge_short_ranges expand all_cuts
rule_ranges cfg words = merge_short_ranges cfg words (expand cfg words 0 (all_cuts cfg words))

module _ (nfc : String → String) where
  unfoldable pub rule_cue : List Word → ℕ → RangeUsize → Cue
  unfolding join_word_texts
  rule_cue words id r = record {
    id = id;
    word_range = some r;
    imported_start_ms = none;
    imported_end_ms = none;
    text = join_word_texts nfc (take (r.end - r.start) (drop r.start words));
    translation = none;
    flags = no_flags;
    text_origin = some from_rules;
    translation_origin = none;
    text_revision = 0;
    translation_revision = 0;
  }

  unfoldable pub push_cues : List RangeUsize → Transcript → Transcript
  unfolding allocate_cue_id rule_cue
  push_cues [] out = out
  push_cues (r ∷ rs) out =
      let (id, allocated) = allocate_cue_id out in
      push_cues rs (
        if leb r.end r.start
        then out
        else record allocated { cues = allocated.cues ++ rule_cue out.words id r ∷ [] })

  unfoldable pub rule_split : RuleSplitConfig → Transcript → Result Transcript
  unfolding push_cues rule_ranges bump_revision
  rule_split cfg t =
      let cleared : Transcript = record t { cues = []; next_cue_id = 1 } in
      if not (is_asr t.timeline_source)
      then err (invalid_argument "rule_split requires AsrWords timeline")
      else if is_empty t.words
      then ok (bump_revision cleared)
      else validated
          (bump_revision (push_cues (rule_ranges (effective t.words cfg) t.words) cleared))
