-- ===== src/Chunking/Words.antt =====
-- crates/core/src/chunking.rs: the words of a chunk on the audio's own timeline.
use video_captioner_r.Subtitle.Word.{Word}
use video_captioner_r.Chunking.{AudioChunk}
use video_captioner_r.Prelude.{
  Bool, List, [], if◌then◌else◌, leb, ltb, map, sat_add_u64, ℕ, ◌&&◌, ◌-◌, ◌/◌, ◌∷◌,
}

abbrev shift_word : ℕ → Word → Word
shift_word read_start_ms w = record w {
  start_ms = sat_add_u64 w.start_ms read_start_ms;
  end_ms = sat_add_u64 w.end_ms read_start_ms;
}

apply_chunk_offset : List Word → ℕ → List Word
apply_chunk_offset words read_start_ms = map (shift_word read_start_ms) words

abbrev pub center : Word → ℕ
center w = sat_add_u64 w.start_ms ((w.end_ms - w.start_ms) / 2)

abbrev owns : AudioChunk → Word → Bool
owns c w = leb c.core_start_ms (center w) && ltb (center w) c.core_end_ms

unfoldable pub retain_core_words : List Word → AudioChunk → List Word
retain_core_words [] c = []
retain_core_words (w ∷ ws) c =
    let rest = retain_core_words ws c in if owns c w then w ∷ rest else rest
