-- ===== src/Reporting.antt =====
-- packages/reporting/src: what a report may carry.
pub mod Text
pub mod Sanitize
pub mod Report
