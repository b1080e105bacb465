-- ===== src/Check.antt =====
-- The package check: results, incidents, checks and the execution of a check.
pub mod State
pub mod Types
pub mod Options
pub mod Schedule
pub mod Execute
pub mod Incidents
pub mod Ran
pub mod History
pub mod Errors
pub mod Tests
