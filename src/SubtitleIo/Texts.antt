-- ===== src/SubtitleIo/Texts.antt =====
-- Trimming and splitting texts: lemmas for the formats of crates/platform/src/subtitle_io.
use video_captioner_r.Prelude.Texts.{
  Text, trim, split, count_char, is_whitespace, trim_start, trim_end,
}
use video_captioner_r.Prelude.{
  Bool, [], all, any, arith, not, refl, true, ℕ, ◌++◌, ◌+◌, ◌==◌, ◌∷◌, ◌≡◌,
}

unfoldable pub visible : ℕ → Bool
unfolding is_whitespace
visible c = not (is_whitespace c)

abbrev pub differs : ℕ → ℕ → Bool
differs sep c = not (c == sep)

trim_start-visible : (s : Text) → all visible s ≡ true → trim_start s ≡ s
unfolding trim_start visible
trim_start-visible [] h = refl
trim_start-visible (c ∷ cs) h = ground arith

trim_end-visible : (s : Text) → all visible s ≡ true → trim_end s ≡ s
unfolding trim_end visible
trim_end-visible [] h = refl
trim_end-visible (c ∷ cs) h = ground (arith, trim_end-visible cs)

pub trim-visible : (s : Text) → all visible s ≡ true → trim s ≡ s
trim-visible s h = rw (trim_start-visible s h) (trim_end-visible s h)

pub split-differs : (sep : ℕ) (s : Text) → all (differs sep) s ≡ true → split sep s ≡ s ∷ []
unfolding split
split-differs sep [] h = refl
split-differs sep (c ∷ cs) h = ground (arith, split-differs sep cs)

pub split-append :
    (sep : ℕ) (s rest : Text)
    → all (differs sep) s ≡ true
    → split sep (s ++ sep ∷ rest) ≡ s ∷ split sep rest
unfolding split
split-append sep [] rest h = ground arith
split-append sep (c ∷ cs) rest h = ground (arith, split-append sep cs rest)

pub count_char-append :
    (c : ℕ) (s rest : Text) → count_char c (s ++ rest) ≡ count_char c s + count_char c rest
unfolding count_char
count_char-append c [] rest = omega arith
count_char-append c (d ∷ s) rest = omega (arith, count_char-append c s rest)

pub count_char-differs : (c : ℕ) (s : Text) → all (differs c) s ≡ true → count_char c s ≡ 0
unfolding count_char
count_char-differs c [] h = refl
count_char-differs c (d ∷ s) h = ground (arith, count_char-differs c s)

pub any-append : (p : ℕ → Bool) (s rest : Text) → any p rest ≡ true → any p (s ++ rest) ≡ true
any-append p [] rest h = h
any-append p (c ∷ s) rest h = ground (arith, any-append p s rest)

pub all-weaken :
    (p q : ℕ → Bool) (s : Text)
    → ((c : ℕ) → p c ≡ true → q c ≡ true)
    → all p s ≡ true
    → all q s ≡ true
all-weaken p q [] k h = refl
all-weaken p q (c ∷ s) k h = ground (arith, k c, all-weaken p q s k)
