-- ===== src/Policy.antt =====
-- packages/policy-engine/src: hosts, mandates and the authorisation of purchases.
pub mod Hosts
pub mod Forbidden
pub mod Purchase
pub mod Mandate
mod Tests
