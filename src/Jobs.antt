-- ===== src/Jobs.antt =====
-- The guaranteed-delivery job pipeline: jobs/store.py and jobs/worker.py.
pub mod Types
pub mod Tables
pub mod Store
pub mod Worker
mod Tests
