-- ===== src/Watchdog.antt =====
-- tools/watchdog.py, the stall watchdog for scheduled jobs.
pub mod Times
pub mod Severity
pub mod Classify
pub mod Run
mod Examples
