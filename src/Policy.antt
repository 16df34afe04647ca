-- ===== src/Policy.antt =====
-- packages/policy/src: the policy boundary.
pub mod Ceiling
pub mod Limits
pub mod Entitlement
pub mod Patterns
pub mod Ipv4
pub mod Ipv6
pub mod Host
pub mod Target
pub mod Rule
pub mod Scope
pub mod Engine
pub mod Membership
