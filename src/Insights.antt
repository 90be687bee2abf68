-- ===== src/Insights.antt =====
-- internal/insights: what is aggregated from the snapshots and the series.
pub mod Mdl
pub mod Engine
