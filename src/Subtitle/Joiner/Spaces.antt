-- ===== src/Subtitle/Joiner/Spaces.antt =====
-- crates/domain/src/subtitle/text_joiner.rs: what the joined text keeps.
use Prim.Native.Char.{code}
use Prim.Native.String.{[] as empty, ◌∷◌ as ◌∷s◌}
use text.Mathlib.TextLemmas.{cons-append, nil-append, append_assoc, append-nil}
use video_captioner_r.Subtitle.Joiner.{
  join_words, join_tokens, tokens, needs_space, last_char, first_char, is_empty_text,
}
use video_captioner_r.Prelude.{
  Bool, Bool-cases, List, [], ap, false, if◌then◌else◌, inl, inr, map, refl, sym, true, ◌+s◌, ◌==◌,
  ◌∙◌, ◌∷◌, ◌≡◌, String,
}

-- A text with its spaces left out.
pub without_spaces : String → String
without_spaces empty = empty
without_spaces (c ∷s s) = let rest = without_spaces s in if code c == b' ' then rest else c ∷s rest

abbrev pub concat_texts : List String → String
concat_texts [] = ""
concat_texts (s ∷ ss) = s +s concat_texts ss

without_spaces-append :
    (s t : String) → without_spaces (s +s t) ≡ without_spaces s +s without_spaces t
unfolding without_spaces
without_spaces-append empty t =
    ap without_spaces (nil-append t) ∙ sym (nil-append (without_spaces t))
without_spaces-append (c ∷s s) t = elim (Bool-cases (code c == b' ')) [
  | inl e ↦
      ap without_spaces (cons-append c s t) ∙ rw (e, without_spaces) (without_spaces-append s t)
  | inr e ↦
      ap without_spaces (cons-append c s t)
      ∙ rw (e, without_spaces)
          (ap (◌∷s◌ c) (without_spaces-append s t)
            ∙ sym (cons-append c (without_spaces s) (without_spaces t)))
]

without_spaces-space : (s : String) → without_spaces (s +s " ") ≡ without_spaces s
unfolding without_spaces
without_spaces-space s = without_spaces-append s " " ∙ append-nil (without_spaces s)

-- One round of the loop.
without_spaces-push :
    (b : Bool) (out t : String)
    → without_spaces ((if b then out +s " " else out) +s t) ≡ without_spaces (out +s t)
without_spaces-push true out t =
    without_spaces-append (out +s " ") t
    ∙ (ap (λ r. r +s without_spaces t) (without_spaces-space out)
        ∙ sym (without_spaces-append out t))
without_spaces-push false out t = refl

join_tokens-keeps :
    (out : String) (ts : List String)
    → without_spaces (join_tokens out ts) ≡ without_spaces (out +s concat_texts ts)
unfolding join_tokens
join_tokens-keeps out [] = ap without_spaces (sym (append-nil out))
join_tokens-keeps out (t ∷ ts) =
    let b = needs_space (last_char out) (first_char t) in
    let pushed = (if b then out +s " " else out) +s t in
    join_tokens-keeps pushed ts
    ∙ (without_spaces-append pushed (concat_texts ts)
        ∙ (ap (λ r. r +s without_spaces (concat_texts ts)) (without_spaces-push b out t)
            ∙ (sym (without_spaces-append (out +s t) (concat_texts ts))
                ∙ ap without_spaces (append_assoc out t (concat_texts ts)))))

module _ (nfc : String → String) where
  push_token :
      (s : String) (ws : List String)
      → concat_texts (tokens nfc ws) ≡ concat_texts (map nfc ws)
      → concat_texts (if is_empty_text s then tokens nfc ws else s ∷ tokens nfc ws)
        ≡ s +s concat_texts (map nfc ws)
  push_token empty ws e = e ∙ sym (nil-append (concat_texts (map nfc ws)))
  push_token (c ∷s s) ws e = ap (λ r. (c ∷s s) +s r) e

  tokens-keep : (ws : List String) → concat_texts (tokens nfc ws) ≡ concat_texts (map nfc ws)
  unfolding tokens
  tokens-keep [] = refl
  tokens-keep (w ∷ ws) = push_token (nfc w) ws (tokens-keep ws)

  join_of_tokens :
      (ts : List String)
      → without_spaces (elim ts [ [] ↦ "" | t ∷ us ↦ join_tokens t us ])
        ≡ without_spaces (concat_texts ts)
  join_of_tokens [] = refl
  join_of_tokens (t ∷ ts) = join_tokens-keeps t ts

  -- Joining words adds and drops nothing but spaces: spaces aside, the text is the normalised
  -- words one behind the other.
  pub join_keeps_text :
      (ws : List String)
      → without_spaces (join_words nfc ws) ≡ without_spaces (concat_texts (map nfc ws))
  unfolding join_words
  join_keeps_text ws = join_of_tokens (tokens nfc ws) ∙ ap without_spaces (tokens-keep ws)
