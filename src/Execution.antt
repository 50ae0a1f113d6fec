-- ===== src/Execution.antt =====
-- src/execution: the execution engine.
pub mod State
pub mod Outcome
pub mod Modify
pub mod Keys
pub mod Where
pub mod Ddl
pub mod Select
pub mod Delete
pub mod Insert
pub mod Update
pub mod Executor
pub mod Reach
pub mod Compose
