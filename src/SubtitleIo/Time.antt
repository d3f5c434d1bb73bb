-- ===== src/SubtitleIo/Time.antt =====
-- crates/platform/src/subtitle_io/time.rs: the times of SRT and WebVTT files.
-- A text is the list of its code points. The sums wrap around, as they do in a release build. An
-- error has the code INVALID_ARGUMENT, and a message about the text that it keeps.
use video_captioner_r.Prelude.Texts.{
  Text, trim, split, count_char, parse_u64, is_ascii_digit, padded,
}
use video_captioner_r.Prelude.{
  List, Option, [], all, any, if◌then◌else◌, inl, inr, leb, length, ltb, none, not, some, ℕ, ◌%◌,
  ◌*◌, ◌++◌, ◌+◌, ◌/◌, ◌==◌, ◌^◌, ◌||◌, ◌∷◌, ◌⊎◌,
}

pub data TimeFault : Type 0 where
  bad_time invalid_millis : Text → TimeFault

abbrev pub Parsed : Type 0
Parsed = TimeFault ⊎ ℕ

-- Hours, minutes, seconds and milliseconds.
abbrev split_ms : ℕ → ℕ × ℕ × ℕ × ℕ
split_ms ms = (ms / 1000 / 60 / 60, ms / 1000 / 60 % 60, ms / 1000 % 60, ms % 1000)

unfoldable pub format_time : ℕ → ℕ → Text
format_time frac_sep ms =
    let (h, m, s, millis) = split_ms ms in
    padded 2 h ++ (58 ∷ (padded 2 m ++ (58 ∷ (padded 2 s ++ (frac_sep ∷ padded 3 millis)))))

abbrev pub format_srt_time : ℕ → Text
format_srt_time ms = format_time 44 ms

abbrev pub format_vtt_time : ℕ → Text
format_vtt_time ms = format_time 46 ms

abbrev pub u64 : ℕ → ℕ
u64 n = n % 2 ^ 64

-- One digit stands for tenths of a second, two for hundredths.
unfoldable pub scale_millis : ℕ → ℕ → ℕ
scale_millis width v = if width == 1 then v * 10 * 10 else if width == 2 then v * 10 else v

unfoldable pub parse_millis : Text → Parsed
parse_millis raw =
    let field = trim raw in
    if length field == 0 || (ltb 3 (length field) || not (all is_ascii_digit field))
    then inl (invalid_millis field)
    else elim (parse_u64 field) [
      | none ↦ inl (invalid_millis field)
      | some v ↦ inr (scale_millis (length field) v)
    ]

abbrev pub with_millis : ℕ → Parsed → Parsed
with_millis seconds (inl fault) = inl fault
with_millis seconds (inr millis) = inr (u64 (u64 (seconds * 1000) + millis))

abbrev parse_part : Text → Option ℕ
parse_part part = parse_u64 (trim part)

-- The fields of a time with hours.
unfoldable pub parse_hms : Text → List Text → Text → Parsed
parse_hms s (h ∷ m ∷ sec ∷ []) frac = elim (parse_part h) [
  | none ↦ inl (bad_time s)
  | some hours ↦ elim (parse_part m) [
    | none ↦ inl (bad_time s)
    | some minutes ↦ elim (parse_part sec) [
      | none ↦ inl (bad_time s)
      | some seconds ↦
          if leb 60 minutes || leb 60 seconds
          then inl (bad_time s)
          else with_millis (u64 (u64 (u64 (hours * 3600) + u64 (minutes * 60)) + seconds))
              (parse_millis frac)
    ]
  ]
]
parse_hms s parts frac = inl (bad_time s)

unfoldable pub parse_parts : Text → List Text → Parsed
parse_parts s (whole ∷ frac ∷ []) = parse_hms s (split 58 whole) frac
parse_parts s parts = inl (bad_time s)

unfoldable pub parse_time_inner : Text → ℕ → Parsed
parse_time_inner s frac_sep = parse_parts (trim s) (split frac_sep (trim s))

-- The fields of a time without hours.
unfoldable pub parse_ms : Text → List Text → Text → Parsed
parse_ms s (m ∷ sec ∷ []) frac = elim (parse_part m) [
  | none ↦ inl (bad_time s)
  | some minutes ↦ elim (parse_part sec) [
    | none ↦ inl (bad_time s)
    | some seconds ↦ with_millis (u64 (u64 (minutes * 60) + seconds)) (parse_millis frac)
  ]
]
parse_ms s parts frac = inl (bad_time s)

unfoldable pub parse_short : Text → List Text → Parsed
parse_short s (whole ∷ frac ∷ []) = parse_ms s (split 58 whole) frac
parse_short s parts = inl (bad_time s)

abbrev pub parse_srt_time : Text → Parsed
parse_srt_time s = parse_time_inner s 44

-- The separator that the text has: `.`, else `,`.
abbrev pub frac_sep_of : Text → ℕ
frac_sep_of s = if any (λ c. c == 46) s then 46 else 44

unfoldable pub parse_vtt_time : Text → Parsed
parse_vtt_time s =
    if count_char 58 (trim s) == 1
    then parse_short (trim s) (split (frac_sep_of (trim s)) (trim s))
    else parse_time_inner (trim s) (frac_sep_of (trim s))
