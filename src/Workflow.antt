-- ===== src/Workflow.antt =====
-- crates/domain/src/workflow: the state machines of jobs, batches and work units.
pub mod Stage
pub mod WorkUnit
pub mod Job
pub mod Batch
