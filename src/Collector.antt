-- ===== src/Collector.antt =====
-- internal/collector: the pollers that turn absolute counters into samples.
pub mod Digest
pub mod AppTag
pub mod Waits
pub mod Cpu
pub mod Health
