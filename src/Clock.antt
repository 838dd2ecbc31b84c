-- ===== src/Clock.antt =====
-- The clocks of pkg/clock that other packages take their time from.
pub mod Fake
mod Examples
