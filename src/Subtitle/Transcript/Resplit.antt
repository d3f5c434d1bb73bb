-- ===== src/Subtitle/Transcript/Resplit.antt =====
-- crates/domain/src/subtitle/transcript.rs: what `apply_llm_split` accepts, and what it makes.
use video_captioner_r.Subtitle.Word.{Word, RangeUsize}
use video_captioner_r.Subtitle.Transcript.{Transcript, Cue, asr_words}
use video_captioner_r.Subtitle.Transcript.Validate.{
  validated-eq-ok, validate, validated-eq-ok, validate_words, validate_word_order, validate_cues,
  next_end, cue_times, asr_times,
}
use video_captioner_r.Subtitle.Transcript.Edits.{bump_revision, allocate_cue_id}
use video_captioner_r.Subtitle.Transcript.Split.{
  apply_llm_split, split_loop, split_cue, is_asr, is_empty,
}
use video_captioner_r.Prelude.{
  >>=-eq-ok, ok-injective, true, ◌&&◌, get_elem?, map, some, suc, zero, ◌-◌, Bool, Bool-cases, ap,
  arith, false, inl, inr, leb, ltb, not, refl, sym, ◌==◌, ◌||◌, ◌∙◌, List, [], length, ok,
  sat_add_u32, ℕ, ◌++◌, ◌<◌, ◌∷◌, ◌≡◌, ◌≤◌, String,
}

-- Ranges that follow each other from `from` to `to`, none of them empty.
unfoldable pub Tiles : ℕ → ℕ → List RangeUsize → Type 0
Tiles from to [] = from ≡ to
Tiles from to (r ∷ rs) = (r.start ≡ from) × (r.start < r.end) × (r.end ≤ to) × Tiles r.end to rs

pub append-nil : {A : Type 0} (xs : List A) → xs ++ [] ≡ xs
append-nil [] = refl
append-nil (x ∷ xs) = ap (◌∷◌ x) (append-nil xs)

pub append-push :
    {A : Type 0} (xs : List A) (y : A) (ys : List A) → (xs ++ y ∷ []) ++ ys ≡ xs ++ y ∷ ys
append-push [] y ys = refl
append-push (x ∷ xs) y ys = ap (◌∷◌ x) (append-push xs y ys)

get_elem?-total :
    {A : Type 0} (xs : List A) (i : ℕ) → i < length xs → (x : A) × (get_elem? xs i ≡ some x)
get_elem?-total [] i h = absurd (omega arith)
get_elem?-total (x ∷ xs) zero h = (x, refl)
get_elem?-total (x ∷ xs) (suc i) h = get_elem?-total xs i (omega arith)

-- The test of a range in the loop.
abbrev range_rejected : RangeUsize → ℕ → ℕ → Bool
range_rejected r from to = not (r.start == from) || (leb r.end r.start || ltb to r.end)

range_accepted :
    (r : RangeUsize) (from to : ℕ)
    → r.start ≡ from
    → r.start < r.end
    → r.end ≤ to
    → range_rejected r from to ≡ false
range_accepted r from to s ne le = ground arith

rs_not_empty :
    (words : List Word) (rs : List RangeUsize)
    → Tiles 0 (length words) rs
    → (is_empty rs && not (is_empty words)) ≡ false
unfolding Tiles
rs_not_empty [] [] t = refl
rs_not_empty (w ∷ ws) [] t = absurd (omega arith)
rs_not_empty ws (r ∷ rs) t = refl

==_refl : (n : ℕ) → (n == n) ≡ true
==_refl n = ground arith

-- A cue with the range `r` passes, behind a cue that ends at `from`.
cue_accepted :
    (t : Transcript) (c : Cue) (from : ℕ) (r : RangeUsize)
    → t.timeline_source ≡ asr_words
    → c.word_range ≡ some r
    → r.start ≡ from
    → r.start < r.end
    → r.end ≤ length t.words
    → (next_end t from c ≡ ok r.end) × (times : ℕ × ℕ) × (cue_times t c ≡ ok times)
unfolding next_end cue_times asr_times
cue_accepted t c from r a w s ne le =
    let (first, e) = get_elem?-total t.words r.start (omega arith) in
    let (last, f) = get_elem?-total t.words (r.end - 1) (omega arith) in
    (
      rw (w, next_end) (ground arith),
      (first.start_ms, last.end_ms),
      rw (a, cue_times) (rw (w, cue_times) (ground (arith, e, f))),
    )

cues_accepted :
    (t : Transcript) (from : ℕ) (cs : List Cue) (rs : List RangeUsize)
    → t.timeline_source ≡ asr_words
    → map (λ (c : Cue). c.word_range) cs ≡ map some rs
    → Tiles from (length t.words) rs
    → validate_cues t from cs ≡ ok tt
unfolding validate_cues Tiles
cues_accepted t from [] rs a m tiles = refl
cues_accepted t from (c ∷ cs) [] a m tiles = absurd (cc)
cues_accepted t from (c ∷ cs) (r ∷ rs) a m (s, ne, le, tiles) =
    let (e, times, f) = cue_accepted t c from r a (ground arith) s ne le in
    rw (e, validate_cues)
      (rw (f, validate_cues) (cues_accepted t r.end cs rs a (ground arith) tiles))

-- A transcript whose cues have ranges that cover its words is valid, if its words are.
pub tiled_valid :
    (t : Transcript) (rs : List RangeUsize)
    → t.timeline_source ≡ asr_words
    → (t.schema_version == 0) ≡ false
    → validate_words t.words ≡ ok tt
    → validate_word_order t.words ≡ ok tt
    → map (λ (c : Cue). c.word_range) t.cues ≡ map some rs
    → Tiles 0 (length t.words) rs
    → validate t ≡ ok tt
unfolding validate
tiled_valid t rs a v w o m tiles =
    rw (v, validate)
      (rw (w, validate)
        (rw (o, validate) (rw (cues_accepted t 0 t.cues rs a m tiles, validate) refl)))

module _ (nfc : String → String) where
  -- The cues that the loop appends.
  abbrev cues_of : List Word → String → ℕ → List RangeUsize → List Cue
  cues_of words request_id id [] = []
  cues_of words request_id id (r ∷ rs) =
      split_cue nfc words request_id id r ∷ cues_of words request_id (sat_add_u32 id 1) rs

  split_loop-Tiles :
      (words : List Word) (request_id : String) (rs : List RangeUsize) (from : ℕ) (out : Transcript)
      → Tiles from (length words) rs
      → (next : ℕ) × (split_loop nfc words request_id rs from out
          ≡ ok (
            length words,
            record out {
              cues = out.cues ++ cues_of words request_id out.next_cue_id rs;
              next_cue_id = next;
            },
          ))
  unfolding split_loop Tiles allocate_cue_id
  split_loop-Tiles words request_id [] from out t = (
    out.next_cue_id,
    rw (t, split_loop)
        (ap ok (ap (λ cs. (length words, record out { cues = cs })) (sym (append-nil out.cues)))),
  )
  split_loop-Tiles words request_id (r ∷ rs) from out (s, ne, le, t) =
      let pushed : Transcript = record out {
        cues = out.cues ++ split_cue nfc words request_id out.next_cue_id r ∷ [];
        next_cue_id = sat_add_u32 out.next_cue_id 1;
      } in
      let (next, e) = split_loop-Tiles words request_id rs r.end pushed t in
      (
        next,
        rw (range_accepted r from (length words) s ne le, split_loop)
            (e
              ∙ ap (λ cs. ok (length words, record out { cues = cs; next_cue_id = next }))
                  (append-push out.cues (split_cue nfc words request_id out.next_cue_id r)
                    (cues_of words request_id (sat_add_u32 out.next_cue_id 1) rs))),
      )

  Tiles-of_split_loop :
      (words : List Word) (request_id : String) (rs : List RangeUsize) (from : ℕ) (out : Transcript)
      (result : ℕ × Transcript)
      → split_loop nfc words request_id rs from out ≡ ok result
      → result.0 ≡ length words
      → Tiles from (length words) rs
  unfolding split_loop Tiles
  Tiles-of_split_loop words request_id [] from out result h e = ground arith
  Tiles-of_split_loop words request_id (r ∷ rs) from out result h e =
      elim (Bool-cases (range_rejected r from (length words))) [
        | inl b ↦ absurd (ground (arith, rw (b, split_loop) at h))
        | inr b ↦ ground (
          arith,
          Tiles-of_split_loop words request_id rs r.end
              (record out {
                cues = out.cues ++ split_cue nfc words request_id out.next_cue_id r ∷ [];
                next_cue_id = sat_add_u32 out.next_cue_id 1;
              })
              result (rw (b, split_loop) at h) e,
        )
      ]

  word_ranges_of_cues :
      (words : List Word) (request_id : String) (id : ℕ) (rs : List RangeUsize)
      → map (λ (c : Cue). c.word_range) (cues_of words request_id id rs) ≡ map some rs
  unfolding split_cue
  word_ranges_of_cues words request_id id [] = refl
  word_ranges_of_cues words request_id id (r ∷ rs) =
      ap (◌∷◌ (some r)) (word_ranges_of_cues words request_id (sat_add_u32 id 1) rs)

  -- An accepted re-split keeps the words, and its cues have just the ranges asked for, which
  -- follow each other without gap from the first word to the last; the result passes
  -- validation.
  pub split_covers :
      (t t' : Transcript) (rs : List RangeUsize) (request_id : String)
      → apply_llm_split nfc t rs request_id ≡ ok t'
      → Tiles 0 (length t'.words) rs
        × (t'.words ≡ t.words)
        × (map (λ (c : Cue). c.word_range) t'.cues ≡ map some rs)
        × (validate t' ≡ ok tt)
  unfolding apply_llm_split bump_revision
  split_covers t t' rs request_id h = elim (Bool-cases (is_asr t.timeline_source)) [
    | inr a ↦ absurd (ground (arith, rw (a, apply_llm_split) at h))
    | inl a ↦ elim (Bool-cases (is_empty rs && not (is_empty t.words))) [
      | inl b ↦ absurd (ground (arith, rw (a, b, apply_llm_split) at h))
      | inr b ↦
          let start : Transcript = record t { cues = []; next_cue_id = 1 } in
          let (r, f, g) =
            >>=-eq-ok (split_loop nfc t.words request_id rs 0 start) _
              (rw (a, b, apply_llm_split) at h) in
          elim (Bool-cases (r.0 == length t.words)) [
            | inr n ↦ absurd (ground (arith, rw n at g))
            | inl n ↦
                let tiles = Tiles-of_split_loop t.words request_id rs 0 start r f (ground arith) in
                let (next, e) = split_loop-Tiles t.words request_id rs 0 start tiles in
                let (made, v) = validated-eq-ok (bump_revision r.1) t' (rw n at g) in
                let known =
                  ap (λ (p : ℕ × Transcript). bump_revision p.1) (ok-injective (sym f ∙ e)) in
                let same = sym made ∙ known in
                (
                  rw (ap (λ (u : Transcript). u.words) same) tiles,
                  ap (λ (u : Transcript). u.words) same,
                  ap (λ (u : Transcript). map (λ (c : Cue). c.word_range) u.cues) same
                      ∙ word_ranges_of_cues t.words request_id 1 rs,
                  v,
                )
          ]
    ]
  ]

  -- On an ASR timeline with a schema version, valid words and words in order, every list of
  -- ranges that covers the words is accepted.
  pub split_accepts :
      (t : Transcript) (rs : List RangeUsize) (request_id : String)
      → t.timeline_source ≡ asr_words
      → (t.schema_version == 0) ≡ false
      → validate_words t.words ≡ ok tt
      → validate_word_order t.words ≡ ok tt
      → Tiles 0 (length t.words) rs
      → (t' : Transcript) × (apply_llm_split nfc t rs request_id ≡ ok t')
  unfolding apply_llm_split bump_revision validate Tiles
  split_accepts t rs request_id a v w o tiles =
      let start : Transcript = record t { cues = []; next_cue_id = 1 } in
      let (next, e) = split_loop-Tiles t.words request_id rs 0 start tiles in
      let out : Transcript =
        bump_revision (record t { cues = cues_of t.words request_id 1 rs; next_cue_id = next }) in
      let c = tiled_valid out rs a v w o (word_ranges_of_cues t.words request_id 1 rs) tiles in
      (
        out,
        rw (ap is_asr a, apply_llm_split)
            (rw (rs_not_empty t.words rs tiles, apply_llm_split)
              (rw (e, apply_llm_split)
                (rw (==_refl (length t.words), apply_llm_split) (rw (c, apply_llm_split) refl)))),
      )
