-- ===== src/Contracts.antt =====
-- packages/contracts/src: the schemas that the packages share.
pub mod Redacted
pub mod Observation
pub mod Membership
pub mod Export
