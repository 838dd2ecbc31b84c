-- ===== src/Kernel.antt =====
-- pkg/kernel: how an application starts its stages, runs its modules and stops.
pub mod Stages
pub mod Modules
pub mod Exit
mod Examples
