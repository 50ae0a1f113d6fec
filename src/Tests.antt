-- ===== src/Tests.antt =====
-- Runs of the definitions at concrete inputs, and the theorems applied to them.
pub mod Fixtures
mod CoreTests
mod StorageTests
mod ParserTests
mod ExecutionTests
mod NetworkTests
mod CliTests
