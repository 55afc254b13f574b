-- ===== src/Multistream.antt =====
-- packages/multistream-select/src: how two peers agree on a protocol for a stream.
-- A text is the list of its characters, a message the list of its bytes. `lp.read` and `lp.write` of
-- the length-prefixed stream are the reading and the writing of one message.
pub mod Text
pub mod Select
pub mod Handle
pub mod System
pub mod Agreement
pub mod Outcome
mod Runs
