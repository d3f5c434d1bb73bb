-- ===== src/SubtitleIo.antt =====
-- crates/platform/src/subtitle_io: reading and writing subtitle files.
pub mod Time
mod Texts
mod Digits
mod RoundTrip
pub mod Times
mod Examples
