-- ===== src/Tests.antt =====
-- Concrete runs: sessions, cards and targets on which the theorems are applied.
pub mod Sessions
pub mod Cards
pub mod Books
pub mod Stores
pub mod Journals
pub mod Logs
pub mod Requests
pub mod Agents
pub mod Probes
pub mod Shells
