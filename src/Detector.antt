-- ===== src/Detector.antt =====
-- internal/detector: what the program reports of a snapshot.
pub mod Issues
pub mod LongTransaction
pub mod Deadlock
pub mod LockGraph
pub mod LockChains
pub mod DdlConflict
pub mod LockIssues
