-- ===== src/SubtitleIo/Digits.antt =====
-- Numbers written in decimal and read again, for crates/platform/src/subtitle_io/time.rs.
use video_captioner_r.Prelude.Texts.{
  Text, digits, padded, zeros, read_digits, parse_u64, is_ascii_digit,
}
use video_captioner_r.Prelude.{
  lt→ltb, length, length-append, sym, Bool-cases, [], all, all-append, ap, arith, if◌then◌else◌,
  inl, inr, ltb, refl, some, suc, true, u64_max, zero, ℕ, ◌%◌, ◌*◌, ◌++◌, ◌+◌, ◌-◌, ◌/◌, ◌<◌, ◌^◌,
  ◌∙◌, ◌∷◌, ◌≡◌, ◌≤◌,
}

read_digits-append :
    (acc v : ℕ) (s rest : Text)
    → read_digits acc s ≡ some v
    → read_digits acc (s ++ rest) ≡ read_digits v rest
unfolding read_digits
read_digits-append acc v [] rest h = ground arith
read_digits-append acc v (c ∷ s) rest h =
    ground (arith, read_digits-append (acc * 10 + (c - 48)) v s rest)

read_digit :
    (acc d : ℕ)
    → d < 10
    → acc * 10 + d ≤ u64_max
    → read_digits acc ((48 + d) ∷ []) ≡ some (acc * 10 + d)
unfolding read_digits
read_digit acc d h le = ground arith

pub digits-step :
    (fuel n : ℕ)
    → digits (suc fuel) n
      ≡ (if ltb n 10 then (48 + n) ∷ [] else digits fuel (n / 10) ++ (48 + n % 10) ∷ [])
unfolding digits
digits-step fuel n = refl

read_nothing : (n : ℕ) → n ≡ 0 → read_digits 0 (digits 0 n) ≡ some n
unfolding digits read_digits
read_nothing n h = ap some (sym h)

no_digits : (n : ℕ) → all is_ascii_digit (digits 0 n) ≡ true
unfolding digits
no_digits n = refl

pub read_digits-digits :
    (fuel n : ℕ) → n < 10 ^ fuel → n ≤ u64_max → read_digits 0 (digits fuel n) ≡ some n
read_digits-digits zero n h le = read_nothing n (omega arith)
read_digits-digits (suc fuel) n h le = elim (Bool-cases (ltb n 10)) [
  | inl e ↦
      rw (digits-step fuel n)
        (rw e (read_digit 0 n (ground arith) (omega arith) ∙ ap some (omega arith)))
  | inr e ↦ rw (digits-step fuel n) (
      rw e (
        read_digits-append 0 (n / 10) (digits fuel (n / 10)) ((48 + n % 10) ∷ [])
          (read_digits-digits fuel (n / 10) (omega arith) (omega arith))
        ∙ (read_digit (n / 10) (n % 10) (omega arith) (omega arith) ∙ ap some (omega arith))))
]

pub all-digits : (fuel n : ℕ) → all is_ascii_digit (digits fuel n) ≡ true
all-digits zero n = no_digits n
all-digits (suc fuel) n = elim (Bool-cases (ltb n 10)) [
  | inl e ↦ rw (digits-step fuel n) (rw e (ground arith))
  | inr e ↦ rw (digits-step fuel n) (
      rw e (
        all-append is_ascii_digit (digits fuel (n / 10)) ((48 + n % 10) ∷ [])
          (all-digits fuel (n / 10)) (ground arith)))
]

digits_pos : (fuel n : ℕ) → 0 < length (digits (suc fuel) n)
digits_pos fuel n = elim (Bool-cases (ltb n 10)) [
  | inl e ↦ rw (digits-step fuel n) (rw e (omega arith))
  | inr e ↦
      rw (digits-step fuel n)
        (rw e (omega (arith, length-append (digits fuel (n / 10)) ((48 + n % 10) ∷ []))))
]

length-digits_zero : (n : ℕ) → length (digits 0 n) ≡ 0
unfolding digits
length-digits_zero n = refl

length-digits : (fuel k n : ℕ) → n < 10 ^ suc k → length (digits fuel n) ≤ suc k
length-digits zero k n h = omega (arith, length-digits_zero n)
length-digits (suc fuel) zero n h =
    rw (digits-step fuel n) (rw (lt→ltb n 10 (omega arith)) (omega arith))
length-digits (suc fuel) (suc k) n h = elim (Bool-cases (ltb n 10)) [
  | inl e ↦ rw (digits-step fuel n) (rw e (omega arith))
  | inr e ↦ rw (digits-step fuel n) (
      rw e (
        omega (
          arith,
          length-append (digits fuel (n / 10)) ((48 + n % 10) ∷ []),
          length-digits fuel k (n / 10) (omega arith),
        )))
]

read_zeros : (k : ℕ) (s : Text) → read_digits 0 (zeros k ++ s) ≡ read_digits 0 s
unfolding read_digits
read_zeros zero s = refl
read_zeros (suc k) s = read_zeros k s

parse_u64-digits :
    (s : Text) → all is_ascii_digit s ≡ true → 0 < length s → parse_u64 s ≡ read_digits 0 s
unfolding parse_u64
parse_u64-digits [] h p = absurd (omega arith)
parse_u64-digits (c ∷ []) h p = ground arith
parse_u64-digits (c ∷ d ∷ cs) h p = ground arith

all-zeros : (k : ℕ) → all is_ascii_digit (zeros k) ≡ true
all-zeros zero = refl
all-zeros (suc k) = all-zeros k

length-zeros : (k : ℕ) → length (zeros k) ≡ k
length-zeros zero = refl
length-zeros (suc k) = omega (arith, length-zeros k)

pub padded_digits : (width n : ℕ) → all is_ascii_digit (padded width n) ≡ true
unfolding padded
padded_digits width n =
    all-append is_ascii_digit (zeros (width - length (digits 20 n))) (digits 20 n)
      (all-zeros (width - length (digits 20 n))) (all-digits 20 n)

pub length-padded : (k n : ℕ) → n < 10 ^ suc k → length (padded (suc k) n) ≡ suc k
unfolding padded
length-padded k n h = omega (
  arith,
  length-append (zeros (suc k - length (digits 20 n))) (digits 20 n),
  length-zeros (suc k - length (digits 20 n)),
  length-digits 20 k n,
)

-- A padded number is read again.
pub parse_u64-padded : (width n : ℕ) → n ≤ u64_max → parse_u64 (padded width n) ≡ some n
unfolding padded
parse_u64-padded width n h =
    parse_u64-digits _ (padded_digits width n) (
      omega (
        arith,
        length-append (zeros (width - length (digits 20 n))) (digits 20 n),
        digits_pos 19 n,
      ))
    ∙ (read_zeros (width - length (digits 20 n)) (digits 20 n)
        ∙ read_digits-digits 20 n (omega arith) h)
