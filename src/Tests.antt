-- ===== src/Tests.antt =====
-- Concrete runs of the operations, and the theorems applied to them.
pub mod Scenario
pub mod Run
pub mod Parts
pub mod Formats
pub mod Locking
pub mod Bindings
pub mod Sink
pub mod Ingest
pub mod Memory
pub mod Lost
pub mod Torn
pub mod Waking
pub mod Driver
