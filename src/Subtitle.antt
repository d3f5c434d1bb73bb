-- ===== src/Subtitle.antt =====
-- crates/domain/src/subtitle: words, cues and transcripts.
pub mod Word
pub mod Joiner
pub mod Transcript
pub mod RuleSplit
