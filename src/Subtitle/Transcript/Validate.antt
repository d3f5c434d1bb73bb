-- ===== src/Subtitle/Transcript/Validate.antt =====
-- crates/domain/src/subtitle/transcript.rs: new transcripts, the times of a cue, and validation.
use video_captioner_r.Subtitle.Word.{Word, range_is_empty, validate_word}
use video_captioner_r.Subtitle.Transcript.{
  Transcript, Cue, EngineFingerprint, asr_words, imported_cue, unknown,
}
use video_captioner_r.Prelude.{
  >>=-eq-ok, ok-injective, subst, ◌≡◌, List, Result, TimestampFault, [], end_before_start, err,
  get_elem?, if◌then◌else◌, invalid_argument, invalid_word_range, length, ltb, max,
  missing_imported_end, missing_imported_start, missing_word_range, none, ok, overlaps_previous,
  panic, sat_add_u32, some, suc, timestamp_invalid, words_not_ordered, ℕ, ◌-◌, ◌==◌, ◌>>=◌, ◌>>◌,
  ◌||◌, ◌∷◌, String,
}

-- SCHEMA_VERSION of crates/domain/src/lib.rs is 1.
unfoldable pub new_asr : String → EngineFingerprint → List Word → Transcript
new_asr source_hash engine words = record {
  schema_version = 1;
  revision = 1;
  source_hash = source_hash;
  language = none;
  engine = engine;
  words = words;
  cues = [];
  next_cue_id = 1;
  timeline_source = asr_words;
}

-- `map(|c| c.id).max().unwrap_or(0)`.
largest_id : List Cue → ℕ
largest_id [] = 0
largest_id (c ∷ cs) = max c.id (largest_id cs)

new_imported : String → List Cue → Transcript
unfolding largest_id
new_imported source_hash cues = record {
  schema_version = 1;
  revision = 1;
  source_hash = source_hash;
  language = none;
  engine = unknown;
  words = [];
  cues = cues;
  next_cue_id = max (sat_add_u32 (largest_id cues) 1) 1;
  timeline_source = imported_cue;
}

abbrev fault {ℓ} : {A : Type ℓ} → TimestampFault → Result A
fault f = err (timestamp_invalid f)

-- Words are read at both ends of the range; a read out of bounds would panic.
unfoldable pub asr_times : List Word → Cue → Result (ℕ × ℕ)
asr_times words cue = elim cue.word_range [
  | none ↦ fault (missing_word_range cue.id)
  | some range ↦
      if range_is_empty range || ltb (length words) range.end
      then fault (invalid_word_range cue.id)
      else elim (get_elem? words range.start) [
        | none ↦ panic
        | some first ↦ elim (get_elem? words (range.end - 1)) [
          | none ↦ panic
          | some last ↦ ok (first.start_ms, last.end_ms)
        ]
      ]
]

unfoldable pub imported_times : Cue → Result (ℕ × ℕ)
imported_times cue = elim cue.imported_start_ms [
  | none ↦ fault (missing_imported_start cue.id)
  | some start ↦ elim cue.imported_end_ms [
    | none ↦ fault (missing_imported_end cue.id)
    | some end ↦ if ltb end start then fault (end_before_start cue.id) else ok (start, end)
  ]
]

unfoldable pub cue_times : Transcript → Cue → Result (ℕ × ℕ)
unfolding asr_times imported_times
cue_times t cue = elim t.timeline_source [
  | asr_words ↦ asr_times t.words cue
  | imported_cue ↦ imported_times cue
]

unfoldable pub validate_words : List Word → Result (Unit {0})
unfolding validate_word
validate_words [] = ok tt
validate_words (w ∷ ws) = validate_word w >> validate_words ws

-- The loop over `1..words.len()`, with the word before the rest and its index plus one.
unfoldable pub validate_order : ℕ → Word → List Word → Result (Unit {0})
validate_order i before [] = ok tt
validate_order i before (w ∷ ws) =
    let rest = validate_order (suc i) w ws in
    if ltb w.start_ms before.start_ms then fault (words_not_ordered i) else rest

abbrev pub validate_word_order : List Word → Result (Unit {0})
validate_word_order [] = ok tt
validate_word_order (w ∷ ws) = validate_order 1 w ws

-- The checks of one cue's word range, which answer the new `last_end`.
unfoldable pub next_end : Transcript → ℕ → Cue → Result ℕ
next_end t last_end cue = elim cue.word_range [
  | none ↦ ok last_end
  | some range ↦
      if range_is_empty range || ltb (length t.words) range.end
      then fault (invalid_word_range cue.id)
      else if ltb range.start last_end
      then fault (overlaps_previous cue.id)
      else ok range.end
]

unfoldable pub validate_cues : Transcript → ℕ → List Cue → Result (Unit {0})
unfolding next_end cue_times
validate_cues t last_end [] = ok tt
validate_cues t last_end (cue ∷ cues) =
    next_end t last_end cue >>= λ end. cue_times t cue >>= λ _. validate_cues t end cues

unfoldable pub validate : Transcript → Result (Unit {0})
unfolding validate_words validate_order validate_cues
validate t =
    if t.schema_version == 0
    then err (invalid_argument "schema_version must be non-zero")
    else (validate_words t.words >> validate_word_order t.words) >> validate_cues t 0 t.cues

-- `out.validate()?; Ok(out)`.
abbrev pub validated : Transcript → Result Transcript
validated t = validate t >> ok t

pub validated-eq-ok : (t t' : Transcript) → validated t ≡ ok t' → (t ≡ t') × (validate t' ≡ ok tt)
validated-eq-ok t t' h =
    let (x, f, g) = >>=-eq-ok (validate t) (λ _. ok t) h in
    (ok-injective g, subst (λ r. validate r ≡ ok tt) (ok-injective g) f)

abbrev try_new_asr : String → EngineFingerprint → List Word → Result Transcript
try_new_asr source_hash engine words = validated (new_asr source_hash engine words)

abbrev try_new_imported : String → List Cue → Result Transcript
try_new_imported source_hash cues = validated (new_imported source_hash cues)
