-- ===== src/Gossipsub.antt =====
-- packages/gossipsub/src: the gossipsub router and its caches.
pub mod MessageCache
pub mod TimeCache
pub mod Router
pub mod Shuffle
pub mod Requests
pub mod Responses
mod Runs
mod RouterRuns
mod RequestRuns
