-- ===== src/Subtitle/RuleSplit/Examples.antt =====
-- The theorems of this component at concrete inputs, and tests.
use video_captioner_r.Subtitle.Word.{Word, validate_word}
use video_captioner_r.Subtitle.Transcript.{Transcript, Cue, asr_words, unknown}
use video_captioner_r.Subtitle.Transcript.Validate.{
  validate, validate_words, validate_word_order, validate_order,
}
use video_captioner_r.Subtitle.Transcript.Resplit.{Tiles}
use video_captioner_r.Subtitle.RuleSplit.{RuleSplitConfig, default_config, is_soft_break_word}
use video_captioner_r.Subtitle.RuleSplit.Ranges.{rule_split, rule_ranges, effective, range}
use video_captioner_r.Subtitle.RuleSplit.Sizes.{rule_ranges-AtMost, AtMost}
use video_captioner_r.Subtitle.RuleSplit.Accepted.{rule_split_covers}
use video_captioner_r.Prelude.{
  All, List, [], f32_minus_one, false, length, map, max, none, ok, refl, some, true, ℕ, ◌*◌, ◌+◌,
  ◌/◌, ◌∷◌, ◌≡◌, String,
}

abbrev spoken : String → ℕ → Word
spoken text at = record { text = text; start_ms = at; end_ms = at + 100; prob = f32_minus_one }

abbrev two_sentences : List Word
two_sentences =
    spoken "It" 0
    ∷ spoken "works." 100
    ∷ spoken "We" 2000
    ∷ spoken "go" 2100
    ∷ spoken "on" 2200
    ∷ []

-- Three fifths and two fifths of a group.
abbrev config : RuleSplitConfig
config = default_config (λ n. n * 3 / 5) (λ n. n * 2 / 5)

abbrev two_words : RuleSplitConfig
two_words = record config { max_words_english = 2; prefer_cjk = false }

abbrev transcript : Transcript
transcript = record {
  schema_version = 1;
  revision = 0;
  source_hash = "h";
  language = none;
  engine = unknown;
  words = two_sentences;
  cues = [];
  next_cue_id = 1;
  timeline_source = asr_words;
}

abbrev id_text : String → String
id_text s = s

words_valid : validate_words two_sentences ≡ ok tt
unfolding validate_words validate_word
words_valid = refl

words_ordered : validate_word_order two_sentences ≡ ok tt
unfolding validate_order
words_ordered = refl

rule_split_covers_example :
    (t' : Transcript) × (rule_split id_text config transcript ≡ ok t')
    × (t'.words ≡ two_sentences)
    × (map (λ (c : Cue). c.word_range) t'.cues
        ≡ map some (rule_ranges (effective two_sentences config) two_sentences))
    × Tiles 0 (length two_sentences) (rule_ranges (effective two_sentences config) two_sentences)
    × (validate t' ≡ ok tt)
rule_split_covers_example =
    rule_split_covers id_text config transcript (spoken "It" 0)
      (spoken "works." 100 ∷ spoken "We" 2000 ∷ spoken "go" 2100 ∷ spoken "on" 2200 ∷ []) refl refl
      refl words_valid words_ordered

rule_ranges-AtMost_example : All (AtMost (max (2 * 2) 1)) (rule_ranges two_words two_sentences)
rule_ranges-AtMost_example = rule_ranges-AtMost two_words two_sentences

two_ranges : rule_ranges config two_sentences ≡ range 0 2 ∷ range 2 5 ∷ []
unfolding rule_ranges
two_ranges = refl

soft_word : is_soft_break_word " And" ≡ true
unfolding is_soft_break_word
soft_word = refl
