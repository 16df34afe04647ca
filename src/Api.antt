-- ===== src/Api.antt =====
-- apps/api/src: the request handlers of the API.
pub mod Session
pub mod Membership
