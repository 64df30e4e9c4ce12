-- ===== src/Integration.antt =====
-- integration/: the router's decision and the guards on it.
pub mod RouterSchema
pub mod Guards
pub mod Orchestrator
mod Tests
