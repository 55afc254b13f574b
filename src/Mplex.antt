-- ===== src/Mplex.antt =====
-- packages/stream-multiplexer-mplex/src: the mplex stream multiplexer.
pub mod MessageTypes
pub mod Varint
pub mod Decode
pub mod Encode
pub mod OneMessage
pub mod RoundTrip
pub mod Stalls
pub mod Stream
pub mod Muxer
mod Runs
mod MuxerRuns
