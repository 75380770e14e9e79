-- ===== src/Report.antt =====
-- What the report analysis makes of a run's records: src/report_analysis.
pub mod Model
pub mod Timeline
pub mod Processes
pub mod Burst
pub mod Scores
mod Tests
