-- ===== src/Limit.antt =====
-- pkg/limit: limiters, which make a caller wait until it may go on.
pub mod FixedWindow
pub mod Ddb
pub mod Chained
mod Examples
