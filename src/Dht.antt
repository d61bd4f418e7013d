-- ===== src/Dht.antt =====
-- The distributed hash table, package dht of dht/.
pub mod Clock
pub mod Value
pub mod Store
pub mod Resolve
pub mod Ring
pub mod Replicas
pub mod Hints
pub mod Quorum
pub mod Gossip
pub mod Server
pub mod Merkle
pub mod Requests
pub mod Reconnect
mod Tests
