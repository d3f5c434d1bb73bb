-- ===== src/Asr/Normalize/Outcome.antt =====
-- crates/asr/src/normalize.rs: every outcome of a normalisation.
use video_captioner_r.Prelude.Texts.{trim_text, is_empty_text}
use video_captioner_r.Subtitle.Word.{Word, validate_word}
use video_captioner_r.Subtitle.Transcript.{Transcript}
use video_captioner_r.Subtitle.Transcript.Validate.{
  validate_word_order, validate_cues, new_asr, validate, validate_words, validate_order,
}
use video_captioner_r.Worker.Helper.{SegmentWord}
use video_captioner_r.Asr.Normalize.{
  source_words, normalize_asr, make_transcript, duration_of, checked, check_words, NormalizeOptions,
  AsrRawResult, Normalized, panicked, refused, normalized, inverse_timestamps, not_ordered,
  domain_refused, normalize_word, normalize_words, kept_word, check_order, ◌>>>◌,
}
use video_captioner_r.Prelude.{
  ap, get_elem?, if◌then◌else◌, subst, sym, ◌∙◌, String, All, Bool-cases, List, Option, [], arith,
  inl, inr, ltb, max, min, none, ok, refl, some, suc, ℕ, ◌&&◌, ◌+◌, ◌-◌, ◌<◌, ◌∷◌, ◌≡◌, ◌≤◌, ◌⊎◌,
}

-- A word with its times in order, within the audio, and valid.
abbrev pub Within : ℕ → Word → Type 0
Within duration w = (w.start_ms ≤ w.end_ms) × (w.end_ms ≤ duration) × (validate_word w ≡ ok tt)

-- A source word whose times within the audio are inverse by more than a millisecond.
abbrev pub Inverse : ℕ → SegmentWord → Type 0
Inverse duration w = min w.end_ms duration + 1 < min w.start_ms duration

-- The words to keep: those with a text, with their times clipped to the audio.
pub kept : ℕ → List SegmentWord → List Word
kept duration [] = []
kept duration (w ∷ ws) =
    let rest = kept duration ws in
    let start = min w.start_ms duration in
    if is_empty_text (trim_text w.text)
    then rest
    else kept_word start (max start (min w.end_ms duration)) w ∷ rest

-- Word `i` starts before the one before it.
abbrev pub Disordered : List Word → ℕ → Type 0
Disordered ws i =
    (before : Word) × (w : Word) × (get_elem? ws i ≡ some before)
    × (get_elem? ws (suc i) ≡ some w)
    × (w.start_ms < before.start_ms)

-- Either a valid transcript of the words to keep, without cues, where no word of the source is
-- inverse; or a refusal with the word that is; or a refusal with two words to keep in a wrong order.
pub Outcome : ℕ → List SegmentWord → Normalized Transcript → Type 0
Outcome duration source panicked = ⊥
Outcome duration source (refused (inverse_timestamps start end text)) =
    (k : ℕ) × (w : SegmentWord) × (get_elem? source k ≡ some w)
    × Inverse duration w
    × (start ≡ min w.start_ms duration)
    × (end ≡ min w.end_ms duration)
    × (text ≡ w.text)
Outcome duration source (refused (not_ordered i)) =
    (j : ℕ) × (i ≡ suc j) × Disordered (kept duration source) j
Outcome duration source (refused (domain_refused why)) = ⊥
Outcome duration source (normalized t) =
    (validate t ≡ ok tt)
    × (t.words ≡ kept duration source)
    × All (Within duration) t.words
    × All (λ w. ¬ (Inverse duration w)) source
    × (t.cues ≡ [])

kept-Within :
    (duration start end : ℕ) (w : SegmentWord)
    → start ≤ duration
    → end ≤ duration
    → Within duration (kept_word start (max start end) w)
unfolding kept_word validate_word
kept-Within duration start end w h k = (omega arith, omega arith, ground arith)

All-Within :
    (duration : ℕ) (source : List SegmentWord) → All (Within duration) (kept duration source)
unfolding kept
All-Within duration [] = tt
All-Within duration (w ∷ ws) =
    let start = min w.start_ms duration in
    elim (Bool-cases (is_empty_text (trim_text w.text))) [
      | inl f ↦ rw (f, kept) (All-Within duration ws)
      | inr f ↦
          rw (f, kept)
            (
              kept-Within duration start (min w.end_ms duration) w (omega arith) (omega arith),
              All-Within duration ws,
            )
    ]

-- The same for the loop over the words.
WordsOutcome : ℕ → List SegmentWord → Normalized (List Word) → Type 0
WordsOutcome duration source panicked = ⊥
WordsOutcome duration source (refused (inverse_timestamps start end text)) =
    (k : ℕ) × (w : SegmentWord) × (get_elem? source k ≡ some w)
    × Inverse duration w
    × (start ≡ min w.start_ms duration)
    × (end ≡ min w.end_ms duration)
    × (text ≡ w.text)
WordsOutcome duration source (refused (not_ordered i)) = ⊥
WordsOutcome duration source (refused (domain_refused why)) = ⊥
WordsOutcome duration source (normalized ws) =
    (ws ≡ kept duration source) × All (λ w. ¬ (Inverse duration w)) source

-- Behind a word that is not inverse, the rest decides.
join :
    (duration : ℕ) (w : SegmentWord) (source : List SegmentWord) (one : Option Word)
    (rest : Normalized (List Word))
    → ¬ (Inverse duration w)
    → kept duration (w ∷ source)
      ≡ elim one [ none ↦ kept duration source | some word ↦ word ∷ kept duration source ]
    → WordsOutcome duration source rest
    → WordsOutcome duration
        (w ∷ source)
        (rest >>> λ others. normalized (elim one [ none ↦ others | some word ↦ word ∷ others ]))
unfolding WordsOutcome
join duration w source one panicked n e b = absurd b
join duration w source one (refused (inverse_timestamps s e t)) n h (k, v, a, b, c, d, f) =
    (suc k, v, a, b, c, d, f)
join duration w source one (refused (not_ordered i)) n e b = absurd b
join duration w source one (refused (domain_refused why)) n e b = absurd b
join duration w source none (normalized others) n e (b, a) = (b ∙ sym e, (n, a))
join duration w source (some word) (normalized others) n e (b, a) =
    (ap (◌∷◌ word) b ∙ sym e, (n, a))

words-WordsOutcome :
    (duration : ℕ) (ws : List SegmentWord) → WordsOutcome duration ws (normalize_words duration ws)
unfolding normalize_words normalize_word WordsOutcome kept
words-WordsOutcome duration [] = (refl, tt)
words-WordsOutcome duration (w ∷ ws) =
    let start = min w.start_ms duration in
    let end = min w.end_ms duration in
    let rest = words-WordsOutcome duration ws in
    elim (Bool-cases (ltb end start && ltb 1 (start - end))) [
      | inl e ↦ rw (e, normalize_words) (0, w, refl, ground arith, refl, refl, refl)
      | inr e ↦ elim (Bool-cases (is_empty_text (trim_text w.text))) [
        | inl f ↦
            rw (e, f, normalize_words)
              (join duration w ws none (normalize_words duration ws) (ground arith)
                (rw (f, kept) refl) rest)
        | inr f ↦
            rw (e, f, normalize_words)
              (join duration w ws (some (kept_word start (max start end) w))
                (normalize_words duration ws) (ground arith) (rw (f, kept) refl) rest)
      ]
    ]

words_accepted :
    (duration : ℕ) (ws : List Word) → All (Within duration) ws → validate_words ws ≡ ok tt
unfolding validate_words
words_accepted duration [] a = refl
words_accepted duration (w ∷ ws) ((o, d, v), a) =
    rw (v, validate_words) (words_accepted duration ws a)

order_valid :
    (i j : ℕ) (before : Word) (ws : List Word)
    → check_order i before ws ≡ normalized tt
    → validate_order j before ws ≡ ok tt
unfolding check_order validate_order
order_valid i j before [] h = refl
order_valid i j before (w ∷ ws) h = ground (arith, order_valid (i + 1) (suc j) w ws)

-- What the check of the order can answer.
order_refuses :
    (i : ℕ) (before : Word) (ws : List Word)
    → (check_order i before ws ≡ normalized tt)
      ⊎ ((k : ℕ) × Disordered (before ∷ ws) k
          × (check_order i before ws ≡ refused (not_ordered (i + k))))
unfolding check_order
order_refuses i before [] = inl refl
order_refuses i before (w ∷ ws) = elim (Bool-cases (ltb w.start_ms before.start_ms)) [
  | inl e ↦ inr (
    0,
    (before, w, refl, refl, ground arith),
    rw (e, check_order) (ap (λ o. refused (not_ordered o)) (omega arith)),
  )
  | inr e ↦ elim (order_refuses (i + 1) w ws) [
    | inl f ↦ inl (rw (e, check_order) f)
    | inr (k, d, f) ↦
        inr (suc k, d, rw (e, check_order) (f ∙ ap (λ o. refused (not_ordered o)) (omega arith)))
  ]
]

made_valid :
    (package_version : String) (raw : AsrRawResult) (opts : NormalizeOptions) (duration : ℕ)
    (ws : List Word)
    → All (Within duration) ws
    → validate_word_order ws ≡ ok tt
    → validate (make_transcript package_version raw opts ws) ≡ ok tt
unfolding make_transcript new_asr validate validate_cues
made_valid package_version raw opts duration ws a h = rw (words_accepted duration ws a, h) refl

conclude :
    (package_version : String) (raw : AsrRawResult) (opts : NormalizeOptions) (duration : ℕ)
    (source : List SegmentWord) (ws : List Word)
    → ws ≡ kept duration source
    → All (λ w. ¬ (Inverse duration w)) source
    → check_words ws ≡ normalized tt
    → validate_word_order ws ≡ ok tt
    → Outcome duration source
        (check_words ws >>> λ _. checked (make_transcript package_version raw opts ws))
unfolding Outcome make_transcript new_asr checked
conclude package_version raw opts duration source ws e n c h =
    let a = subst (All (Within duration)) (sym e) (All-Within duration source) in
    let v = made_valid package_version raw opts duration ws a h in rw (c, v) (v, e, a, n, refl)

after_words :
    (package_version : String) (raw : AsrRawResult) (opts : NormalizeOptions) (duration : ℕ)
    (source : List SegmentWord) (made : Normalized (List Word))
    → WordsOutcome duration source made
    → Outcome duration source (
        made >>> λ ws.
        check_words ws >>> λ _. checked (make_transcript package_version raw opts ws))
unfolding Outcome WordsOutcome check_words
after_words package_version raw opts duration source panicked a = absurd a
after_words package_version raw opts duration source (refused (inverse_timestamps s e t)) a = a
after_words package_version raw opts duration source (refused (not_ordered i)) a = absurd a
after_words package_version raw opts duration source (refused (domain_refused why)) a = absurd a
after_words package_version raw opts duration source (normalized []) (e, n) =
    conclude package_version raw opts duration source [] e n refl refl
after_words package_version raw opts duration source (normalized (w ∷ ws)) (e, n) =
    elim (order_refuses 1 w ws) [
      | inl c ↦
          conclude package_version raw opts duration source (w ∷ ws) e n c (order_valid 1 1 w ws c)
      | inr (k, d, f) ↦ rw f (k, omega arith, subst (λ o. Disordered o k) e d)
    ]

-- A raw speech result becomes a valid transcript without cues of just the source words that
-- have a text, with their times clipped to the audio, and then no source word has times inverse
-- by more than a millisecond within the audio; or it is refused with a source word that has, or
-- with the place where a word to keep starts before the one before it. Nothing else happens.
pub normalize_outcome :
    (package_version : String) (raw : AsrRawResult) (opts : NormalizeOptions)
    → Outcome (duration_of raw opts) (source_words raw) (normalize_asr package_version raw opts)
unfolding normalize_asr
normalize_outcome package_version raw opts =
    after_words package_version raw opts (duration_of raw opts) (source_words raw)
      (normalize_words (duration_of raw opts) (source_words raw))
      (words-WordsOutcome (duration_of raw opts) (source_words raw))
