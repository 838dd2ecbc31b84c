-- ===== src/Smpl.antt =====
-- What pkg/smpl does: whether a request is sampled.
pub mod Probabilistic
pub mod Decider
mod Examples
