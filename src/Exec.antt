-- ===== src/Exec.antt =====
-- Retries of pkg/exec: how long a run has taken, and the executor that retries with backoff.
pub mod Tracker
pub mod Backoff
mod Examples
