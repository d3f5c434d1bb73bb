-- ===== src/Subtitle/Joiner/Examples.antt =====
-- The theorem of crates/domain/src/subtitle/text_joiner.rs at concrete words.
use video_captioner_r.Subtitle.Joiner.{join_words}
use video_captioner_r.Subtitle.Joiner.Spaces.{without_spaces, concat_texts, join_keeps_text}
use video_captioner_r.Prelude.{[], map, ◌∷◌, ◌≡◌, String}

abbrev same_text : String → String
same_text s = s

join_keeps_text_example :
    without_spaces (join_words same_text ("Hello" ∷ "," ∷ "world" ∷ []))
    ≡ without_spaces (concat_texts (map same_text ("Hello" ∷ "," ∷ "world" ∷ [])))
join_keeps_text_example = join_keeps_text same_text ("Hello" ∷ "," ∷ "world" ∷ [])
