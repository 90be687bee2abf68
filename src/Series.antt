-- ===== src/Series.antt =====
-- internal/series: the in-memory time series that the collectors write and the views read.
pub mod Ring
pub mod Sample
pub mod Sink
pub mod Registry
