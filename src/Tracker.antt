-- ===== src/Tracker.antt =====
-- The tracker, package main of tracker/: one module for its state and one for each group of
-- handlers. Each handler holds the lock `mu` from its first read to its return, so it is one
-- function from the state to the state, the reply and what it starts in the background.
pub mod State
pub mod Accounts
pub mod Groups
pub mod Files
pub mod Access
pub mod Peers
pub mod Membership
pub mod Untouched
pub mod Owners
pub mod Sync
pub mod Valid
pub mod Server
pub mod Rejoin
mod Tests
