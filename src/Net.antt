-- ===== src/Net.antt =====
-- primus-net-opt: routing, gossip, the shield and the messages between nodes.
pub mod Dht
pub mod Peers
pub mod Lookup
pub mod Message
pub mod Gossip
pub mod Shield
pub mod Handler
