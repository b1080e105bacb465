-- ===== src/MemQueue.antt =====
-- The package memqueue: the in-memory priority queue, its specification, and the refinement.
pub mod Queue
pub mod Spec
pub mod Represents
pub mod Enqueue
pub mod Scan
pub mod Dequeue
pub mod Timing
pub mod History
pub mod Tests
pub mod Listing
