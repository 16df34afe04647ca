-- ===== src/Tests.antt =====
-- Test data, tests, and the theorems at concrete inputs.
mod Request
mod Decision
mod Limits
mod Scope
mod Addresses
mod Membership
mod Analysis
mod Worker
mod Api
mod Reporting
mod Audit
