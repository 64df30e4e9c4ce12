-- ===== src/Business.antt =====
-- business/: identity verification, the business tables, and the tools that read and write them.
pub mod Verification
pub mod Repository
pub mod Schemas
pub mod Executor
pub mod Durable
mod Tests
