-- ===== src/CircuitRelay.antt =====
-- packages/transport-circuit-relay-v2/src: the relay server
pub mod ReservationStore
pub mod Server
pub mod Limits
mod Runs
