-- ===== src/Bwu.antt =====
-- The bandwidth upgrade subsystem.
pub mod ServiceId
pub mod Client
pub mod Platform
pub mod World
pub mod Manager
pub mod Handler
pub mod Testing
pub mod Actor
pub mod StreamChannel
pub mod Tcp
pub mod WifiLan
pub mod WifiHotspot
mod Sample
mod Examples
