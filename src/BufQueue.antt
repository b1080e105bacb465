-- ===== src/BufQueue.antt =====
-- The package bufqueue: a buffered queue between the server and a backend.
pub mod Queue
pub mod Serve
pub mod Conserved
pub mod System
pub mod Race
pub mod Tests
pub mod History
