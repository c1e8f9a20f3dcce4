-- ===== src/Frames.antt =====
-- frames.rs: parsing, the builders of the frames, and the conversions of mediums.
pub mod Defs
pub mod Mediums
pub mod Parse
pub mod Request
pub mod Transfer
pub mod Upgrade
pub mod Roundtrip
pub mod Receive
mod Examples
