-- ===== src/UseCases.antt =====
-- crates/core/src/use_cases: application code over ports. A port's answer is an argument; a use
-- case that writes answers what it has asked the store to write, with its result.
mod Results
pub mod Retry
pub mod Pipeline
unfoldable pub use Results.*
