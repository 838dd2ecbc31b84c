-- ===== src/Stream.antt =====
-- pkg/stream: how producers encode, pack and send messages, and how consumers handle them.
pub mod Message
pub mod Encoding
pub mod Batcher
pub mod ConsumerBase
pub mod Consumer
pub mod BatchConsumer
pub mod Aggregator
pub mod Partitioned
pub mod Daemon
mod Examples
