-- ===== src/Handler.antt =====
-- The handlers that see the results of checks: check/handler.
pub mod Statsd
pub mod Rrdcached
pub mod Dummy
pub mod Tests
