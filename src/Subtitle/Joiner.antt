-- ===== src/Subtitle/Joiner.antt =====
-- crates/domain/src/subtitle/text_joiner.rs: putting the words of a cue together.
-- Characters are tested by their number. NFC normalisation is the parameter `nfc`.
pub mod Spaces
mod Examples
use Prim.Native.Char.{Char, code}
use Prim.Native.String.{[] as empty, ◌∷◌ as ◌∷s◌}
use video_captioner_r.Subtitle.Word.{Word}
use video_captioner_r.Prelude.{
  Bool, List, Option, [], any, false, if◌then◌else◌, leb, map, none, not, some, true, ℕ, ◌&&◌, ◌+s◌,
  ◌==◌, ◌||◌, ◌∷◌, String,
}

abbrev one_of : List ℕ → Char → Bool
one_of codes c = any (λ n. n == code c) codes

abbrev between : ℕ → ℕ → Char → Bool
between low high c = leb low (code c) && leb (code c) high

is_cjk : Char → Bool
is_cjk c =
    between 0x3040 0x30ff c
    || (between 0x3400 0x4dbf c
        || (between 0x4e00 0x9fff c
            || (between 0xf900 0xfaff c || (between 0xff66 0xff9d c || between 0x3000 0x303f c))))

is_ascii_digit : Char → Bool
is_ascii_digit c = between b'0' b'9' c

-- Behind the alphanumerics: `%`, `$`, the euro sign and the pound sign.
is_word_char : Char → Bool
unfolding is_cjk is_ascii_digit
is_word_char c =
    is_ascii_digit c
    || (between b'A' b'Z' c
        || (between b'a' b'z' c || (is_cjk c || one_of (b'%' ∷ b'$' ∷ 0x20ac ∷ 0xa3 ∷ []) c)))

is_connector : Char → Bool
is_connector c = one_of (0x27 ∷ 0x2019 ∷ 0x2d ∷ 0x2011 ∷ 0x2013 ∷ 0x2f ∷ []) c

is_opening_punct : Char → Bool
is_opening_punct c =
    one_of
      (0x28 ∷ 0x5b ∷ 0x7b ∷ 0x201c ∷ 0x2018 ∷ 0x300c ∷ 0x300e ∷ 0xff08 ∷ 0x3010 ∷ 0x300a ∷ 0x3008
        ∷ 0x22 ∷ 0x27 ∷ [])
      c

is_cjk_punct : Char → Bool
is_cjk_punct c =
    one_of
      (0x3002 ∷ 0x3001 ∷ 0xff01 ∷ 0xff1f ∷ 0xff1b ∷ 0xff1a ∷ 0x300c ∷ 0x300d ∷ 0x300e ∷ 0x300f
        ∷ 0xff08 ∷ 0xff09 ∷ 0x3010 ∷ 0x3011 ∷ 0x300a ∷ 0x300b ∷ 0x3008 ∷ 0x3009 ∷ 0x30fb ∷ [])
      c

is_closing_punct : Char → Bool
unfolding is_cjk_punct
is_closing_punct c =
    one_of
      (0x2e ∷ 0x2c ∷ 0x21 ∷ 0x3f ∷ 0x3b ∷ 0x3a ∷ 0x29 ∷ 0x5d ∷ 0x7d ∷ 0x201d ∷ 0x2019 ∷ 0x300d
        ∷ 0x300f ∷ 0xff09 ∷ 0x3011 ∷ 0x300b ∷ 0x3009 ∷ 0x3002 ∷ 0x3001 ∷ 0xff01 ∷ 0xff1f ∷ 0xff1b
        ∷ 0xff1a ∷ 0x25 ∷ 0x22 ∷ 0x27 ∷ [])
      c
    || is_cjk_punct c

space_between : Char → Char → Bool
unfolding is_cjk is_ascii_digit is_word_char is_connector is_opening_punct is_cjk_punct
    is_closing_punct
space_between p n =
    if is_closing_punct n || is_connector n
    then false
    else if is_opening_punct p
    then false
    else if is_cjk_punct p
    then false
    else if is_connector p
    then false
    else if is_cjk p && is_cjk n
    then false
    else if is_word_char p && is_word_char n
    then true
    else if is_word_char p && is_opening_punct n
    then true
    else if is_closing_punct p && is_word_char n
    then if code p == b'.' && is_ascii_digit n then false else not (is_cjk_punct p)
    else false

pub needs_space : Option Char → Option Char → Bool
unfolding space_between
needs_space none next = false
needs_space (some p) none = false
needs_space (some p) (some n) = space_between p n

-- `chars().next()` and `chars().next_back()`.
abbrev pub first_char : String → Option Char
first_char empty = none
first_char (c ∷s s) = some c

abbrev pub last_char : String → Option Char
last_char empty = none
last_char (c ∷s s) = elim (last_char s) [ none ↦ some c | some d ↦ some d ]

abbrev pub is_empty_text : String → Bool
is_empty_text empty = true
is_empty_text (c ∷s s) = false

-- The loop over the tokens behind the first one.
pub join_tokens : String → List String → String
unfolding needs_space
join_tokens out [] = out
join_tokens out (t ∷ ts) =
    join_tokens ((if needs_space (last_char out) (first_char t) then out +s " " else out) +s t) ts

module _ (nfc : String → String) where
  pub tokens : List String → List String
  tokens [] = []
  tokens (w ∷ ws) = let rest = tokens ws in if is_empty_text (nfc w) then rest else nfc w ∷ rest

  pub join_words : List String → String
  unfolding tokens join_tokens
  join_words words = elim (tokens words) [ [] ↦ "" | t ∷ ts ↦ join_tokens t ts ]

  unfoldable pub join_word_texts : List Word → String
  unfolding join_words
  join_word_texts words = join_words (map (λ (w : Word). w.text) words)
