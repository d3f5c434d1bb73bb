-- ===== src/SubtitleIo/Examples.antt =====
-- The theorems of this component at concrete inputs, and tests.
use video_captioner_r.Prelude.Texts.{
  codes, trim_start, trim_end, is_whitespace, split, read_digits, parse_u64, digits, padded,
  count_char,
}
use video_captioner_r.SubtitleIo.Time.{
  bad_time, format_srt_time, format_vtt_time, parse_srt_time, parse_vtt_time, format_time,
  parse_time_inner, parse_parts, parse_hms, parse_ms, parse_short, parse_millis, scale_millis,
}
use video_captioner_r.SubtitleIo.Times.{parse-format}
use video_captioner_r.Prelude.{arith, inl, inr, refl, ◌≡◌}

parse-format_example :
    (parse_srt_time (format_srt_time 3661234) ≡ inr 3661234)
    × (parse_vtt_time (format_vtt_time 3661234) ≡ inr 3661234)
parse-format_example = parse-format 3661234 (omega arith)

srt_text : format_srt_time 3661234 ≡ codes "01:01:01,234"
unfolding format_time padded digits
srt_text = refl

-- A time without hours may have a minute of 75 seconds.
short_time : parse_vtt_time (codes " 01:75.5 ") ≡ inr 135500
unfolding parse_vtt_time count_char trim_start trim_end is_whitespace split parse_short parse_ms
    parse_u64 read_digits parse_millis scale_millis
short_time = refl

long_time : parse_vtt_time (codes "00:01:75.5") ≡ inl (bad_time (codes "00:01:75.5"))
unfolding parse_vtt_time count_char trim_start trim_end is_whitespace split parse_time_inner
    parse_parts parse_hms parse_u64 read_digits parse_millis scale_millis
long_time = refl
