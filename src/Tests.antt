-- ===== src/Tests.antt =====
-- Concrete inputs: the theorems at runs of the program's operations.
pub mod Machine
pub mod Fixture
pub mod Pool
pub mod Steps
pub mod Maintenance
pub mod Config
pub mod Shutdown
pub mod Tree
pub mod Launch
pub mod Auth
pub mod Json
pub mod Requests
pub mod Browsing
pub mod Interleaved
pub mod Handlers
pub mod Server
