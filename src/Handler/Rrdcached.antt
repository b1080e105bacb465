-- ===== src/Handler/Rrdcached.antt =====
-- The handler that stores metrics in round-robin databases: check/handler/rrdcached.
pub mod Client
pub mod Split
pub mod RoundTrip
pub mod Update
pub mod Process
pub mod Reports
pub mod Prepared
pub mod GoRrd
pub mod Tests
