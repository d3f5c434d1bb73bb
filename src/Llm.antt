-- ===== src/Llm.antt =====
-- crates/llm: calling language model providers.
pub mod Circuit
