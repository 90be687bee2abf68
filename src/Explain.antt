-- ===== src/Explain.antt =====
-- internal/explain: EXPLAIN on demand.
pub mod Safe
