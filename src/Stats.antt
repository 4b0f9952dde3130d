-- ===== src/Stats.antt =====
-- internal/stats: the statistics of a benchmark's history.
pub mod Window
pub mod Reduce
pub mod Verdict
pub mod Summary
pub mod Shifts
pub mod Rolling
