-- ===== src/Analysis.antt =====
-- packages/analysis/src/index.ts: what the observations of a passive run say of the target.
pub mod Findings
pub mod Keys
pub mod Reference
