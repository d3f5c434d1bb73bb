-- ===== src/Subtitle/Word.antt =====
-- The words and word ranges of crates/domain/src/subtitle/transcript.rs.
use video_captioner_r.Prelude.{
  Bool, Result, err, f32_in_unit, f32_minus_one, if◌then◌else◌, invalid_argument, leb, ltb, not, ok,
  timestamp_invalid, word_reversed, ℕ, ◌-◌, ◌==◌, ◌||◌, String,
}

-- `prob` is the bit pattern of an `f32`.
pub record Word : Type 0 where
  pub text : String
  pub start_ms : ℕ
  pub end_ms : ℕ
  pub prob : ℕ

abbrev has_confidence : Word → Bool
has_confidence w = f32_in_unit w.prob

unfoldable pub validate_word : Word → Result (Unit {0})
validate_word w =
    if ltb w.end_ms w.start_ms
    then err (timestamp_invalid (word_reversed w.end_ms w.start_ms))
    else if not (w.prob == f32_minus_one || f32_in_unit w.prob)
    then err (invalid_argument "invalid word.prob")
    else ok tt

pub record RangeUsize : Type 0 where
  pub start : ℕ
  pub end : ℕ

abbrev range_len : RangeUsize → ℕ
range_len r = r.end - r.start

abbrev pub range_is_empty : RangeUsize → Bool
range_is_empty r = leb r.end r.start
