-- ===== src/Asr.antt =====
-- crates/asr/src: from what an engine gives to a transcript.
pub mod Normalize
