-- ===== src/SubtitleIo/Times.antt =====
-- crates/platform/src/subtitle_io/time.rs: a time that is written in either format is read again.
use video_captioner_r.Prelude.Texts.{Text, padded, count_char, is_whitespace}
use video_captioner_r.SubtitleIo.Time.{
  format_srt_time, format_vtt_time, parse_srt_time, parse_vtt_time, parse_time_inner, frac_sep_of,
}
use video_captioner_r.SubtitleIo.Texts.{
  visible, trim-visible, count_char-append, count_char-differs, any-append,
}
use video_captioner_r.SubtitleIo.RoundTrip.{
  inner_read, no_overflow, format_written, parse_srt_time-format, colon_differs, all-padded,
  written_visible, whole, written,
}
use video_captioner_r.Prelude.{
  ap, arith, inr, refl, u64_max, ℕ, ◌%◌, ◌++◌, ◌+◌, ◌/◌, ◌==◌, ◌∙◌, ◌∷◌, ◌≡◌, ◌≤◌,
}

no_colon : (width n : ℕ) → count_char 58 (padded width n) ≡ 0
no_colon width n = count_char-differs 58 (padded width n) (all-padded _ width n colon_differs)

one_more :
    (s rest : Text) → count_char 58 (s ++ 58 ∷ rest) ≡ count_char 58 s + 1 + count_char 58 rest
unfolding count_char
one_more s rest = omega (arith, count_char-append 58 s (58 ∷ rest))

two_colons : (h m s millis : ℕ) → count_char 58 (written 46 h m s millis) ≡ 2
unfolding count_char
two_colons h m s millis = omega (
  arith,
  count_char-append 58 (whole h m s) (46 ∷ padded 3 millis),
  one_more (padded 2 h) (padded 2 m ++ 58 ∷ padded 2 s),
  one_more (padded 2 m) (padded 2 s),
  no_colon 2 h,
  no_colon 2 m,
  no_colon 2 s,
  no_colon 3 millis,
)

has_point : (h m s millis : ℕ) → frac_sep_of (written 46 h m s millis) ≡ 46
has_point h m s millis =
    rw (any-append (λ c. c == 46) (whole h m s) (46 ∷ padded 3 millis) refl, frac_sep_of) refl

vtt_read :
    (h m s millis : ℕ)
    → parse_vtt_time (written 46 h m s millis) ≡ parse_time_inner (written 46 h m s millis) 46
unfolding parse_vtt_time visible is_whitespace
vtt_read h m s millis =
    rw (trim-visible (written 46 h m s millis) (written_visible 46 h m s millis refl)) (
      rw (two_colons h m s millis)
        (ap (parse_time_inner (written 46 h m s millis)) (has_point h m s millis)))

parse_vtt_time-format : (ms : ℕ) → ms ≤ u64_max → parse_vtt_time (format_vtt_time ms) ≡ inr ms
unfolding visible is_whitespace
parse_vtt_time-format ms h = rw (format_written 46 ms) (
    vtt_read (ms / 1000 / 60 / 60) (ms / 1000 / 60 % 60) (ms / 1000 % 60) (ms % 1000)
    ∙ (inner_read 46 (ms / 1000 / 60 / 60) (ms / 1000 / 60 % 60) (ms / 1000 % 60) (ms % 1000)
          (omega arith) refl (omega arith) (omega arith) (omega arith) (omega arith)
        ∙ ap inr (no_overflow ms h)))

-- A time in milliseconds that fits a u64 is read again from the text that is written for it, in
-- SRT and in WebVTT.
pub parse-format :
    (ms : ℕ)
    → ms ≤ u64_max
    → (parse_srt_time (format_srt_time ms) ≡ inr ms)
      × (parse_vtt_time (format_vtt_time ms) ≡ inr ms)
parse-format ms h = (parse_srt_time-format ms h, parse_vtt_time-format ms h)
