-- ===== src/Delivery.antt =====
-- packages/protected-delivery-runner/src: the probes of a target and their verdicts.
pub mod Scenario
pub mod Replay
pub mod Credential
pub mod Verdict
pub mod Rejection
mod Tests
