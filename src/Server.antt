-- ===== src/Server.antt =====
-- The package server: the goroutines of Server.Run as interleaved steps.
pub mod System
pub mod Custody
pub mod Limits
pub mod Shutdown
pub mod Return
pub mod Tracking
pub mod Composed
pub mod Tests
