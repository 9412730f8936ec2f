-- ===== src/Jobs.antt =====
-- jobs/: the batch jobs over the `memories` table.
pub mod Decay
pub mod Reflection
mod Examples
