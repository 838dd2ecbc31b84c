-- ===== src/Conc.antt =====
-- pkg/conc: the locks, as transition systems of the goroutines that use them, and the scheduler of jobs.
pub mod KeyLock
pub mod Scheduler
pub mod PoisonedLock
mod Examples
