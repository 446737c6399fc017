-- ===== src/Channel.antt =====
-- The channels of include/sync/channel.h.
pub mod Queue
pub mod Buffered
pub mod NonCoroBuffered
pub mod NonCoroUnBuffered
pub mod CoroBounded
pub mod CoroUnBounded
pub mod Client
pub mod Sink
pub mod Histories
mod Tests
