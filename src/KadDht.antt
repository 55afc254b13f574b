-- ===== src/KadDht.antt =====
-- packages/kad-dht/src: the Kademlia routing table's parts.
pub mod PeerDistanceList
pub mod KBucket
mod Runs
