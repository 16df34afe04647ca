-- ===== src/Policy/Engine.antt =====
-- packages/policy/src/engine.ts: the final authority on an assessment. The parts of the request are
-- read in the children; `Authorize` puts the decision together.
pub mod Snapshot
pub mod Facts
pub mod Context
pub mod Entitlement
pub mod Evidence
pub mod Playbook
pub mod Authorize
