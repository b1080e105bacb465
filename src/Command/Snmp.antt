-- ===== src/Command/Snmp.antt =====
-- The command that polls a device by SNMP: check/command/snmp/snmp.go.
pub mod Monitor
pub mod Run
pub mod Worst
pub mod Rated
pub mod Divides
pub mod Panics
pub mod Result
pub mod Whole
pub mod Tests
