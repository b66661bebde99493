-- ===== src/Processor.antt =====
-- The processor cycle's own steps, of `processor_main` in src/stream_web/processor.py, one
-- module for each.
mod Tests
pub mod Drops
pub mod Dedup
pub mod History
pub mod Entries
pub mod Cycle
