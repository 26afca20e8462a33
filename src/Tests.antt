-- ===== src/Tests.antt =====
-- Runs of the model at concrete states, and the theorems applied there.
mod States
mod LogTests
mod RaftTests
mod StorageTests
mod TransportTests
mod WalTests
mod ServerTests
mod HttpTests
pub use States.*
