-- ===== src/Subtitle/Transcript/Times.antt =====
-- crates/domain/src/subtitle/transcript.rs: what validation says of the times of the cues.
use mathlib.Core.Option.{some-injective}
use native.Mathlib.Decide.{dec_lt}
use video_captioner_r.Subtitle.Word.{Word, RangeUsize, validate_word}
use video_captioner_r.Subtitle.Transcript.{Transcript, Cue, asr_words}
use video_captioner_r.Subtitle.Transcript.Validate.{
  validate, validate_words, validate_order, validate_word_order, validate_cues, next_end, cue_times,
  asr_times,
}
use video_captioner_r.Prelude.{
  >>=-eq-ok, Bool-cases, ok-injective, subst, ◌==◌, ◌>>◌, Option-cases, [], ap, arith, get_elem?,
  inl, inr, ok, some, suc, sym, zero, ℕ, ◌-◌, ◌<◌, ◌∙◌, ◌∷◌, ◌≡◌, ◌≤◌, List,
}

-- Words are in the order of their starts.
order-sorted :
    (i : ℕ) (v : Word) (ws : List Word) (b : ℕ) (w : Word)
    → validate_order i v ws ≡ ok tt
    → get_elem? ws b ≡ some w
    → v.start_ms ≤ w.start_ms
unfolding validate_order
order-sorted i v [] b w h e = cc
order-sorted i v (x ∷ ws) zero w h e = ground arith
order-sorted i v (x ∷ ws) (suc b) w h e =
    ground (arith, order-sorted (suc i) x ws b w (ground arith) e)

sorted_at :
    (i : ℕ) (v : Word) (ws : List Word) (a b : ℕ) (x y : Word)
    → validate_order i v ws ≡ ok tt
    → a < b
    → get_elem? (v ∷ ws) a ≡ some x
    → get_elem? (v ∷ ws) b ≡ some y
    → x.start_ms ≤ y.start_ms
unfolding validate_order
sorted_at i v ws a zero x y h l ex ey = absurd (omega arith)
sorted_at i v ws zero (suc b) x y h l ex ey = ground (arith, order-sorted i v ws b y h ey)
sorted_at i v [] (suc a) (suc b) x y h l ex ey = cc
sorted_at i v (w ∷ ws) (suc a) (suc b) x y h l ex ey =
    sorted_at (suc i) w ws a b x y (ground arith) (omega arith) ex ey

words_sorted :
    (ws : List Word) (a b : ℕ) (x y : Word)
    → validate_word_order ws ≡ ok tt
    → a ≤ b
    → get_elem? ws a ≡ some x
    → get_elem? ws b ≡ some y
    → x.start_ms ≤ y.start_ms
words_sorted [] a b x y h l ex ey = cc
words_sorted (v ∷ ws) a b x y h l ex ey = elim (dec_lt a b) [
  | yes lt ↦ sorted_at 1 v ws a b x y h lt ex ey
  | no ge ↦
      let same : a ≡ b = omega arith in ground (arith, sym ex ∙ (ap (get_elem? (v ∷ ws)) same ∙ ey))
]

word_forward :
    (ws : List Word) (a : ℕ) (w : Word)
    → validate_words ws ≡ ok tt
    → get_elem? ws a ≡ some w
    → w.start_ms ≤ w.end_ms
unfolding validate_words validate_word
word_forward [] a w h e = cc
word_forward (v ∷ ws) zero w h e = ground arith
word_forward (v ∷ ws) (suc a) w h e = word_forward ws a w (ground arith) e

-- What an accepted cue of an ASR transcript has, behind the words that are taken.
abbrev Accepted : Transcript → ℕ → ℕ → Cue → Type 0
Accepted t from end c =
    (r : RangeUsize) × (x : Word) × (y : Word) × (from ≤ r.start)
    × (r.start < r.end)
    × (end ≡ r.end)
    × (get_elem? t.words r.start ≡ some x)
    × (get_elem? t.words (r.end - 1) ≡ some y)
    × (cue_times t c ≡ ok (x.start_ms, y.end_ms))

asr-Accepted :
    (t : Transcript) (from end : ℕ) (c : Cue) (times : ℕ × ℕ)
    → t.timeline_source ≡ asr_words
    → next_end t from c ≡ ok end
    → cue_times t c ≡ ok times
    → Accepted t from end c
unfolding next_end cue_times asr_times
asr-Accepted t from end c times a n e = elim (Option-cases c.word_range) [
  | inl none_there ↦ ground arith
  | inr (r, er) ↦ elim (Option-cases (get_elem? t.words r.start)) [
    | inl ex ↦ ground arith
    | inr (x, ex) ↦ elim (Option-cases (get_elem? t.words (r.end - 1))) [
      | inl ey ↦ ground arith
      | inr (y, ey) ↦ (r, x, y, ground arith, ground arith, ground arith, ex, ey, ground arith)
    ]
  ]
]

-- The first cue of an accepted list, and the rest behind it.
cons-Accepted :
    (t : Transcript) (from : ℕ) (c : Cue) (cs : List Cue)
    → t.timeline_source ≡ asr_words
    → validate_cues t from (c ∷ cs) ≡ ok tt
    → (end : ℕ) × Accepted t from end c × (validate_cues t end cs ≡ ok tt)
unfolding validate_cues
cons-Accepted t from c cs a h =
    let (end, n, h') = >>=-eq-ok (next_end t from c) _ h in
    let (times, e, rest) = >>=-eq-ok (cue_times t c) _ h' in
    (end, asr-Accepted t from end c times a n e, rest)

at-Accepted :
    (t : Transcript) (from : ℕ) (cs : List Cue) (k : ℕ) (c : Cue)
    → t.timeline_source ≡ asr_words
    → validate_cues t from cs ≡ ok tt
    → get_elem? cs k ≡ some c
    → (end : ℕ) × Accepted t from end c
at-Accepted t from [] k c a h e = cc
at-Accepted t from (d ∷ cs) zero c a h e =
    let (end, acc, rest) = cons-Accepted t from d cs a h in
    (end, subst (Accepted t from end) (some-injective _ _ e) acc)
at-Accepted t from (d ∷ cs) (suc k) c a h e =
    let (end, (r, x, y, lo, ne, re, ex, ey, times), rest) = cons-Accepted t from d cs a h in
    let (end', (r', x', y', lo', ne', re', ex', ey', times')) = at-Accepted t end cs k c a rest e in
    (end', (r', x', y', omega arith, ne', re', ex', ey', times'))

cues-ordered :
    (t : Transcript) (from : ℕ) (cs : List Cue) (i k : ℕ) (c d : Cue) (p q : ℕ × ℕ)
    → t.timeline_source ≡ asr_words
    → validate_words t.words ≡ ok tt
    → validate_word_order t.words ≡ ok tt
    → validate_cues t from cs ≡ ok tt
    → i < k
    → get_elem? cs i ≡ some c
    → get_elem? cs k ≡ some d
    → cue_times t c ≡ ok p
    → cue_times t d ≡ ok q
    → (p.0 ≤ p.1) × (p.0 ≤ q.0)
cues-ordered t from [] i k c d p q a w o h l ec ed tc td = cc
cues-ordered t from (b ∷ cs) i zero c d p q a w o h l ec ed tc td = absurd (omega arith)
cues-ordered t from (b ∷ cs) zero (suc k) c d p q a w o h l ec ed tc td =
    let (end, acc, rest) = cons-Accepted t from b cs a h in
    let (r, x, y, lo, ne, re, ex, ey, times) =
      subst (Accepted t from end) (some-injective _ _ ec) acc in
    let (end', (r', x', y', lo', ne', re', ex', ey', times')) =
      at-Accepted t end cs k d a rest ed in
    let sp : (x.start_ms, y.end_ms) ≡ p = ok-injective (sym times ∙ tc) in
    let sq : (x'.start_ms, y'.end_ms) ≡ q = ok-injective (sym times' ∙ td) in
    let early = words_sorted t.words r.start r'.start x x' o (omega arith) ex ex' in
    let inner = words_sorted t.words r.start (r.end - 1) x y o (omega arith) ex ey in
    let long = word_forward t.words (r.end - 1) y w ey in ground (arith, sp, sq, early, inner, long)
cues-ordered t from (b ∷ cs) (suc i) (suc k) c d p q a w o h l ec ed tc td =
    let (end, acc, rest) = cons-Accepted t from b cs a h in
    cues-ordered t end cs i k c d p q a w o rest (omega arith) ec ed tc td

validate-parts :
    (t : Transcript)
    → validate t ≡ ok tt
    → (validate_words t.words ≡ ok tt)
      × (validate_word_order t.words ≡ ok tt)
      × (validate_cues t 0 t.cues ≡ ok tt)
unfolding validate
validate-parts t h = elim (Bool-cases (t.schema_version == 0)) [
  | inl e ↦ absurd (ground (arith, rw e at h))
  | inr e ↦
      let (u, f, g) =
        >>=-eq-ok (validate_words t.words >> validate_word_order t.words) _ (rw e at h) in
      let (v, f', g') = >>=-eq-ok (validate_words t.words) (λ _. validate_word_order t.words) f in
      (f', g', g)
]

-- In an ASR transcript that passes validation, a cue with another behind it does not end before
-- it starts, and does not start after that other.
pub valid_times_ordered :
    (t : Transcript) (i k : ℕ) (c d : Cue) (p q : ℕ × ℕ)
    → t.timeline_source ≡ asr_words
    → validate t ≡ ok tt
    → i < k
    → get_elem? t.cues i ≡ some c
    → get_elem? t.cues k ≡ some d
    → cue_times t c ≡ ok p
    → cue_times t d ≡ ok q
    → (p.0 ≤ p.1) × (p.0 ≤ q.0)
valid_times_ordered t i k c d p q a h l ec ed tc td =
    let (w, o, v) = validate-parts t h in cues-ordered t 0 t.cues i k c d p q a w o v l ec ed tc td
