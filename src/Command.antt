-- ===== src/Command.antt =====
-- The commands that checks run: check/command.
pub mod Snmp
pub mod Response
pub mod Smtp
pub mod Http
pub mod Dns
pub mod Ping
pub mod BigFloat
pub mod JunSubPool
pub mod CiscoResources
pub mod DeviceTests
pub mod Tests
