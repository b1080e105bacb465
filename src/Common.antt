-- ===== src/Common.antt =====
-- The names that the other modules share: the libraries', passed on, and those of the children.
pub mod Tests
pub mod Lists
pub mod Int
pub mod Key
pub mod GoMap
pub mod Float
pub mod Occurrences
pub mod Decimal
