-- ===== src/Subtitle/RuleSplit.antt =====
-- crates/domain/src/subtitle/split.rs, constants.rs: the split of a transcript by rules.
-- A text is the list of its code points. The two float ratios are functions: `prefix_words len` is
-- `(len as f64 * prefix_word_ratio) as usize`. The sums of gaps do not overflow.
pub mod Ranges
pub mod Tiling
pub mod Sizes
pub mod Accepted
mod Examples
use video_captioner_r.Prelude.Texts.{Text, codes, trim, trim_end, is_whitespace, trim_start}
use video_captioner_r.Subtitle.Word.{Word}
use video_captioner_r.Prelude.{
  Bool, List, Option, [], any, drop, false, get_elem?, if◌then◌else◌, leb, length, ltb, min, none,
  some, take, true, u64_max, ℕ, ◌&&◌, ◌*◌, ◌+◌, ◌-◌, ◌/◌, ◌==◌, ◌||◌, ◌∷◌, String,
}

pub record RuleSplitConfig : Type 0 where
  pub max_words_cjk : ℕ
  pub max_words_english : ℕ
  pub max_gap_ms : ℕ
  pub rule_split_gap_ms : ℕ
  pub merge_short_gap_ms : ℕ
  pub merge_very_short_gap_ms : ℕ
  pub merge_min_words : ℕ
  pub merge_very_short_words : ℕ
  pub time_gap_window : ℕ
  pub time_gap_multiplier : ℕ
  pub prefix_words : ℕ → ℕ
  pub suffix_words : ℕ → ℕ
  pub prefer_cjk : Bool

-- `RuleSplitConfig::default`, with the constants of constants.rs.
abbrev pub default_config : (prefix_words suffix_words : ℕ → ℕ) → RuleSplitConfig
default_config prefix_words suffix_words = record {
  max_words_cjk = 25;
  max_words_english = 18;
  max_gap_ms = 1500;
  rule_split_gap_ms = 500;
  merge_short_gap_ms = 200;
  merge_very_short_gap_ms = 500;
  merge_min_words = 5;
  merge_very_short_words = 3;
  time_gap_window = 5;
  time_gap_multiplier = 3;
  prefix_words = prefix_words;
  suffix_words = suffix_words;
  prefer_cjk = false;
}

abbrev pub max_words : RuleSplitConfig → ℕ
max_words cfg = if cfg.prefer_cjk then cfg.max_words_cjk else cfg.max_words_english

abbrev between : ℕ → ℕ → ℕ → Bool
between low high c = leb low c && leb c high

abbrev is_cjk_char : ℕ → Bool
is_cjk_char c =
    between 0x3040 0x30ff c
    || (between 0x3400 0x4dbf c || (between 0x4e00 0x9fff c || between 0xf900 0xfaff c))

abbrev is_ascii_alphabetic : ℕ → Bool
is_ascii_alphabetic c = between b'A' b'Z' c || between b'a' b'z' c

-- How many characters are CJK, and how many are Latin letters.
abbrev count_chars : (ℕ → Bool) → Text → ℕ
count_chars p [] = 0
count_chars p (c ∷ cs) = (if p c then 1 else 0) + count_chars p cs

abbrev count_in_words : (ℕ → Bool) → List Word → ℕ
count_in_words p [] = 0
count_in_words p (w ∷ ws) = count_chars p (codes w.text) + count_in_words p ws

-- The two kinds of character do not overlap, so two counts are the loop's one.
unfoldable pub detect_cjk_from_words : List Word → Bool
detect_cjk_from_words words =
    ltb (count_in_words is_ascii_alphabetic words) (count_in_words is_cjk_char words)

abbrev same_text : Text → Text → Bool
same_text [] [] = true
same_text (c ∷ cs) (d ∷ ds) = c == d && same_text cs ds
same_text _ _ = false

abbrev to_ascii_lowercase : Text → Text
to_ascii_lowercase [] = []
to_ascii_lowercase (c ∷ cs) = (if between b'A' b'Z' c then c + 32 else c) ∷ to_ascii_lowercase cs

abbrev soft_break_words : List String
soft_break_words =
    "and" ∷ "or" ∷ "but" ∷ "so" ∷ "because" ∷ "when" ∷ "while" ∷ "although" ∷ "though" ∷ "if"
    ∷ "that" ∷ "which" ∷ "who" ∷ "where" ∷ "after" ∷ "before" ∷ "as" ∷ "than" ∷ "then" ∷ "also"
    ∷ "however" ∷ "therefore" ∷ "moreover" ∷ "plus" ∷ "with" ∷ "without" ∷ "to" ∷ "of" ∷ "in" ∷ "on"
    ∷ "for" ∷ "from" ∷ "by" ∷ "at" ∷ "about" ∷ "into" ∷ "through" ∷ "during" ∷ "including" ∷ "until"
    ∷ "against" ∷ "among" ∷ "throughout" ∷ "despite" ∷ "towards" ∷ "upon" ∷ "concerning" ∷ "的" ∷ "了"
    ∷ "和" ∷ "与" ∷ "及" ∷ "而" ∷ "或" ∷ "但" ∷ "因为" ∷ "所以" ∷ "如果" ∷ "虽然" ∷ "但是" ∷ "然后" ∷ "而且" ∷ "并且"
    ∷ "以及" ∷ "の" ∷ "に" ∷ "は" ∷ "が" ∷ "を" ∷ "と" ∷ "で" ∷ "も" ∷ "から" ∷ "まで" ∷ "より" ∷ "へ" ∷ []

unfoldable pub is_soft_break_word : String → Bool
unfolding trim_start trim_end is_whitespace
is_soft_break_word text =
    let t = to_ascii_lowercase (trim (codes text)) in
    any (λ w. same_text (codes w) t) soft_break_words

abbrev last_of : Text → Option ℕ
last_of [] = none
last_of (c ∷ []) = some c
last_of (c ∷ cs) = last_of cs

abbrev is_sentence_end : ℕ → Bool
is_sentence_end c = any (λ e. e == c) (b'.' ∷ b'!' ∷ b'?' ∷ 0x3002 ∷ 0xff01 ∷ 0xff1f ∷ 0x2026 ∷ [])

-- The last character that is not white space.
unfoldable pub ends_sentence : String → Bool
unfolding trim_end is_whitespace
ends_sentence text = elim (last_of (trim_end (codes text))) [
  | none ↦ false
  | some c ↦ is_sentence_end c
]

-- `b.start_ms.saturating_sub(a.end_ms)` for neighbours.
unfoldable pub gaps : List Word → List ℕ
gaps [] = []
gaps (a ∷ []) = []
gaps (a ∷ b ∷ ws) = (b.start_ms - a.end_ms) ∷ gaps (b ∷ ws)

abbrev sum : List ℕ → ℕ
sum [] = 0
sum (x ∷ xs) = x + sum xs

-- The gap at `i`; the code asks only where there is one.
abbrev pub gap_at : List ℕ → ℕ → ℕ
gap_at gs i = elim (get_elem? gs i) [ none ↦ 0 | some g ↦ g ]

unfoldable pub unusual_gap : List ℕ → ℕ → ℕ → ℕ → Bool
unusual_gap gs i window mult =
    let start = i - window in
    let end = min (i + window + 1) (length gs) in
    let slice = take (end - start) (drop start gs) in
    let avg = sum slice / length slice in
    if length gs == 0 || window == 0
    then false
    else if leb end start
    then false
    else ltb 0 avg && (leb (min (avg * mult) u64_max) (gap_at gs i) && leb 200 (gap_at gs i))
