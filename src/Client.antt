-- ===== src/Client.antt =====
-- The client, package main of client/.
pub mod Chunk
pub mod Peer
pub mod Rarity
pub mod Download
pub mod Trackers
pub mod Commands
mod Tests
