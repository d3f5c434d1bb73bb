-- ===== src/SubtitleIo/RoundTrip.antt =====
-- crates/platform/src/subtitle_io/time.rs: a time that is written is read again.
use video_captioner_r.Prelude.Texts.{
  Text, padded, parse_u64, is_ascii_digit, split, trim, is_whitespace,
}
use video_captioner_r.SubtitleIo.Time.{
  with_millis, u64, scale_millis, format_time, format_srt_time, parse_srt_time, parse_millis,
  parse_hms, parse_parts, parse_time_inner,
}
use video_captioner_r.SubtitleIo.Texts.{
  visible, differs, trim-visible, split-differs, split-append, all-weaken,
}
use video_captioner_r.SubtitleIo.Digits.{padded_digits, length-padded, parse_u64-padded}
use video_captioner_r.Prelude.{
  lt→leb_false, sym, Bool, [], all, all-append, ap, length, refl, some, u64_max, ◌%◌, ◌*◌, ◌++◌,
  ◌+◌, ◌/◌, ◌∙◌, ◌∷◌, ◌≤◌, arith, inr, true, ℕ, ◌<◌, ◌≡◌,
}

pub digit_visible : (c : ℕ) → is_ascii_digit c ≡ true → visible c ≡ true
unfolding visible is_whitespace
digit_visible c h = ground arith

digit_differs : (sep : ℕ) → sep < 48 → (c : ℕ) → is_ascii_digit c ≡ true → differs sep c ≡ true
digit_differs sep low c h = ground arith

pub colon_differs : (c : ℕ) → is_ascii_digit c ≡ true → differs 58 c ≡ true
colon_differs c h = ground arith

trim-padded : (width n : ℕ) → trim (padded width n) ≡ padded width n
trim-padded width n =
    trim-visible (padded width n)
      (all-weaken is_ascii_digit visible (padded width n) digit_visible (padded_digits width n))

scale_three : (n : ℕ) → scale_millis 3 n ≡ n
unfolding scale_millis
scale_three n = refl

millis_read : (n : ℕ) → n < 1000 → parse_millis (padded 3 n) ≡ inr n
unfolding parse_millis
millis_read n h = rw (trim-padded 3 n) (
    rw (length-padded 2 n h) (
      rw (padded_digits 3 n) (
        rw (parse_u64-padded 3 n (omega arith)) (
          ap inr (
            ap (λ k. scale_millis k n) (ap length (trim-padded 3 n) ∙ length-padded 2 n h)
            ∙ scale_three n)))))

append_assoc_cons :
    (xs ys zs : Text) (c d : ℕ) → (xs ++ c ∷ ys) ++ d ∷ zs ≡ xs ++ c ∷ (ys ++ d ∷ zs)
append_assoc_cons [] ys zs c d = refl
append_assoc_cons (x ∷ xs) ys zs c d = ap (◌∷◌ x) (append_assoc_cons xs ys zs c d)

all-between :
    (p : ℕ → Bool) (xs ys : Text) (c : ℕ)
    → all p xs ≡ true
    → p c ≡ true
    → all p ys ≡ true
    → all p (xs ++ c ∷ ys) ≡ true
all-between p xs ys c h k l = all-append p xs (c ∷ ys) h (ground arith)

-- The time up to the seconds.
abbrev pub whole : ℕ → ℕ → ℕ → Text
whole h m s = padded 2 h ++ 58 ∷ (padded 2 m ++ 58 ∷ padded 2 s)

pub all-padded :
    (p : ℕ → Bool) (width n : ℕ)
    → ((c : ℕ) → is_ascii_digit c ≡ true → p c ≡ true)
    → all p (padded width n) ≡ true
all-padded p width n digit =
    all-weaken is_ascii_digit p (padded width n) digit (padded_digits width n)

all-whole :
    (p : ℕ → Bool) (h m s : ℕ)
    → ((c : ℕ) → is_ascii_digit c ≡ true → p c ≡ true)
    → p 58 ≡ true
    → all p (whole h m s) ≡ true
all-whole p h m s digit colon =
    all-between p (padded 2 h) (padded 2 m ++ 58 ∷ padded 2 s) 58 (all-padded p 2 h digit) colon (
      all-between p (padded 2 m) (padded 2 s) 58 (all-padded p 2 m digit) colon
        (all-padded p 2 s digit))

split-whole : (h m s : ℕ) → split 58 (whole h m s) ≡ padded 2 h ∷ padded 2 m ∷ padded 2 s ∷ []
split-whole h m s =
    split-append 58 (padded 2 h) (padded 2 m ++ 58 ∷ padded 2 s)
      (all-padded (differs 58) 2 h colon_differs)
    ∙ ap (◌∷◌ (padded 2 h)) (
        split-append 58 (padded 2 m) (padded 2 s) (all-padded (differs 58) 2 m colon_differs)
        ∙ ap (◌∷◌ (padded 2 m))
            (split-differs 58 (padded 2 s) (all-padded (differs 58) 2 s colon_differs)))

part_read : (width n : ℕ) → n ≤ u64_max → parse_u64 (trim (padded width n)) ≡ some n
part_read width n h = rw (trim-padded width n) (parse_u64-padded width n h)

hms_read :
    (text frac : Text) (h m s : ℕ)
    → h ≤ u64_max
    → m < 60
    → s < 60
    → parse_hms text (padded 2 h ∷ padded 2 m ∷ padded 2 s ∷ []) frac
      ≡ with_millis (u64 (u64 (u64 (h * 3600) + u64 (m * 60)) + s)) (parse_millis frac)
unfolding parse_hms
hms_read text frac h m s lh lm ls =
    rw (part_read 2 h lh, parse_hms)
      (rw (part_read 2 m (omega arith), parse_hms)
        (rw (part_read 2 s (omega arith), parse_hms)
          (rw (lt→leb_false 60 m lm, lt→leb_false 60 s ls) refl)))

-- A time of the form that is written.
abbrev pub written : ℕ → ℕ → ℕ → ℕ → ℕ → Text
written sep h m s millis = whole h m s ++ sep ∷ padded 3 millis

pub written_visible :
    (sep h m s millis : ℕ) → visible sep ≡ true → all visible (written sep h m s millis) ≡ true
unfolding visible is_whitespace
written_visible sep h m s millis v =
    all-between visible (whole h m s) (padded 3 millis) sep
      (all-whole visible h m s digit_visible refl) v (all-padded visible 3 millis digit_visible)

pub inner_read :
    (sep h m s millis : ℕ)
    → sep < 48
    → visible sep ≡ true
    → h ≤ u64_max
    → m < 60
    → s < 60
    → millis < 1000
    → parse_time_inner (written sep h m s millis) sep
      ≡ inr (u64 (u64 (u64 (u64 (u64 (h * 3600) + u64 (m * 60)) + s) * 1000) + millis))
unfolding parse_time_inner parse_parts
inner_read sep h m s millis low v lh lm ls lms =
    let parts : split sep (written sep h m s millis) ≡ whole h m s ∷ padded 3 millis ∷ [] =
      split-append sep (whole h m s) (padded 3 millis)
        (all-whole (differs sep) h m s (digit_differs sep low) (ground arith))
      ∙ ap (◌∷◌ (whole h m s)) (
          split-differs sep (padded 3 millis)
            (all-padded (differs sep) 3 millis (digit_differs sep low))) in
    rw (trim-visible (written sep h m s millis) (written_visible sep h m s millis v)) (
      rw parts (
        rw (split-whole h m s) (
          hms_read (written sep h m s millis) (padded 3 millis) h m s lh lm ls
          ∙ ap (with_millis (u64 (u64 (u64 (h * 3600) + u64 (m * 60)) + s)))
              (millis_read millis lms))))

pub no_overflow :
    (ms : ℕ)
    → ms ≤ u64_max
    → let h = ms / 1000 / 60 / 60 in
      let m = ms / 1000 / 60 % 60 in
      let s = ms / 1000 % 60 in
      u64 (u64 (u64 (u64 (u64 (h * 3600) + u64 (m * 60)) + s) * 1000) + ms % 1000) ≡ ms
no_overflow ms h = omega arith

pub format_written :
    (sep ms : ℕ)
    → format_time sep ms
      ≡ written sep (ms / 1000 / 60 / 60) (ms / 1000 / 60 % 60) (ms / 1000 % 60) (ms % 1000)
unfolding format_time
format_written sep ms = sym (
    append_assoc_cons (padded 2 (ms / 1000 / 60 / 60))
      (padded 2 (ms / 1000 / 60 % 60) ++ 58 ∷ padded 2 (ms / 1000 % 60)) (padded 3 (ms % 1000)) 58
      sep
    ∙ ap (λ rest. padded 2 (ms / 1000 / 60 / 60) ++ 58 ∷ rest)
        (append_assoc_cons (padded 2 (ms / 1000 / 60 % 60)) (padded 2 (ms / 1000 % 60))
          (padded 3 (ms % 1000)) 58 sep))

pub parse_srt_time-format : (ms : ℕ) → ms ≤ u64_max → parse_srt_time (format_srt_time ms) ≡ inr ms
unfolding visible is_whitespace
parse_srt_time-format ms h = rw (format_written 44 ms) (
    inner_read 44 (ms / 1000 / 60 / 60) (ms / 1000 / 60 % 60) (ms / 1000 % 60) (ms % 1000)
      (omega arith) refl (omega arith) (omega arith) (omega arith) (omega arith)
    ∙ ap inr (no_overflow ms h))
