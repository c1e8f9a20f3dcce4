-- ===== src/Bwu/Manager.antt =====
-- bwu/manager.rs: the upgrade state machine.
pub mod Medium
pub mod Retry
pub mod Initiate
pub mod Protocol
pub mod Introduction
pub mod Respond
pub mod Dispatch
pub mod Termination
pub mod Attempts
pub mod Fuel
pub mod Quiet
pub mod Invariant
pub mod Steps
pub mod Entries
pub mod Introduced
pub mod Incoming
pub mod Joining
pub mod Delivery
pub mod Offer
pub mod Gate
pub mod Disconnect
pub mod Handshake
pub mod Choice
pub mod Complete
pub mod Backoff
mod Examples
