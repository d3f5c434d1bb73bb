-- ===== src/Subtitle/RuleSplit/Accepted.antt =====
-- crates/domain/src/subtitle/split.rs: what a rule split makes of a transcript.
use video_captioner_r.Subtitle.Word.{Word, RangeUsize}
use video_captioner_r.Subtitle.Transcript.{Transcript, Cue, asr_words}
use video_captioner_r.Subtitle.Transcript.Validate.{validate, validate_words, validate_word_order}
use video_captioner_r.Subtitle.Transcript.Edits.{bump_revision, allocate_cue_id}
use video_captioner_r.Subtitle.Transcript.Split.{is_asr, is_empty}
use video_captioner_r.Subtitle.Transcript.Resplit.{Tiles, tiled_valid, append-nil, append-push}
use video_captioner_r.Subtitle.RuleSplit.{RuleSplitConfig}
use video_captioner_r.Subtitle.RuleSplit.Ranges.{
  rule_split, rule_cue, push_cues, rule_ranges, effective,
}
use video_captioner_r.Subtitle.RuleSplit.Tiling.{rule_ranges-Tiles}
use video_captioner_r.Prelude.{
  List, [], ap, false, length, lt→leb_false, map, ok, refl, sat_add_u32, some, sym, ℕ, ◌++◌, ◌==◌,
  ◌∙◌, ◌∷◌, ◌≡◌, String,
}

module _ (nfc : String → String) where
  abbrev cues_of : List Word → ℕ → List RangeUsize → List Cue
  cues_of words id [] = []
  cues_of words id (r ∷ rs) = rule_cue nfc words id r ∷ cues_of words (sat_add_u32 id 1) rs

  word_ranges_of_cues :
      (words : List Word) (id : ℕ) (rs : List RangeUsize)
      → map (λ (c : Cue). c.word_range) (cues_of words id rs) ≡ map some rs
  unfolding rule_cue
  word_ranges_of_cues words id [] = refl
  word_ranges_of_cues words id (r ∷ rs) =
      ap (◌∷◌ (some r)) (word_ranges_of_cues words (sat_add_u32 id 1) rs)

  push_cues-Tiles :
      (rs : List RangeUsize) (from : ℕ) (out : Transcript)
      → Tiles from (length out.words) rs
      → (next : ℕ) × (push_cues nfc rs out ≡ record out {
        cues = out.cues ++ cues_of out.words out.next_cue_id rs;
        next_cue_id = next;
      })
  unfolding push_cues Tiles allocate_cue_id
  push_cues-Tiles [] from out t =
      (out.next_cue_id, ap (λ cs. record out { cues = cs }) (sym (append-nil out.cues)))
  push_cues-Tiles (r ∷ rs) from out (s, ne, le, t) =
      let pushed : Transcript = record out {
        cues = out.cues ++ rule_cue nfc out.words out.next_cue_id r ∷ [];
        next_cue_id = sat_add_u32 out.next_cue_id 1;
      } in
      let (next, e) = push_cues-Tiles rs r.end pushed t in
      (
        next,
        rw (lt→leb_false r.end r.start ne, push_cues)
            (e
              ∙ ap (λ cs. record out { cues = cs; next_cue_id = next })
                  (append-push out.cues (rule_cue nfc out.words out.next_cue_id r)
                    (cues_of out.words (sat_add_u32 out.next_cue_id 1) rs))),
      )

  -- The split of a valid ASR transcript that has words is accepted and valid, keeps the words,
  -- and its cues have just the ranges of the rules, which follow each other without gap from
  -- the first word to the last.
  pub rule_split_covers :
      (cfg : RuleSplitConfig) (t : Transcript) (w : Word) (ws : List Word)
      → t.timeline_source ≡ asr_words
      → (t.schema_version == 0) ≡ false
      → t.words ≡ w ∷ ws
      → validate_words t.words ≡ ok tt
      → validate_word_order t.words ≡ ok tt
      → (t' : Transcript) × (rule_split nfc cfg t ≡ ok t')
        × (t'.words ≡ t.words)
        × (map (λ (c : Cue). c.word_range) t'.cues
            ≡ map some (rule_ranges (effective t.words cfg) t.words))
        × Tiles 0 (length t.words) (rule_ranges (effective t.words cfg) t.words)
        × (validate t' ≡ ok tt)
  unfolding rule_split bump_revision
  rule_split_covers cfg t w ws a v e ok_words ok_order =
      let rs = rule_ranges (effective t.words cfg) t.words in
      let tiles : Tiles 0 (length t.words) rs =
        rw e (rule_ranges-Tiles (effective (w ∷ ws) cfg) w ws) in
      let cleared : Transcript = record t { cues = []; next_cue_id = 1 } in
      let (next, f) = push_cues-Tiles rs 0 cleared tiles in
      let out : Transcript =
        bump_revision (record t { cues = cues_of t.words 1 rs; next_cue_id = next }) in
      let ranges = word_ranges_of_cues t.words 1 rs in
      let valid = tiled_valid out rs a v ok_words ok_order ranges tiles in
      (
        out,
        rw (ap is_asr a, rule_split)
            (rw (ap is_empty e, rule_split) (rw (f, rule_split) (rw (valid, rule_split) refl))),
        refl,
        ranges,
        tiles,
        valid,
      )
