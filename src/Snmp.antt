-- ===== src/Snmp.antt =====
-- The package snmp: values of objects, differences of counters, and the chunked getter.
pub mod Value
pub mod Counter
pub mod Getter
pub mod Chunks
pub mod Device
pub mod Tests
