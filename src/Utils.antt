-- ===== src/Utils.antt =====
-- packages/utils/src: parts that other packages build on.
pub mod MemoryStorage
pub mod RateLimiter
pub mod MessageStream
pub mod Queue
mod QueueRuns
mod Runs
mod StreamRuns
