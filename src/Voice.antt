-- ===== src/Voice.antt =====
-- voice/: turn taking, and the guard against repeated writes.
pub mod TurnManager
pub mod Idempotency
mod Tests
