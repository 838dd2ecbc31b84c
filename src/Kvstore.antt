-- ===== src/Kvstore.antt =====
-- pkg/kvstore: the interface of a store, and the stores built on it.
pub mod Store
pub mod Chain
pub mod Batching
pub mod Stores
pub mod Examples
