-- ===== src/Kvstore/Stores.antt =====
-- The stores of pkg/kvstore that keep nothing of their own outside the process: empty.go,
-- in_memory.go and metric.go, each as the operations of `KvStore`.
pub mod Empty
pub mod InMemory
pub mod Metered
