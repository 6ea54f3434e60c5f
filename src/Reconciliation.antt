-- ===== src/Reconciliation.antt =====
-- packages/payment-reconciliation/src/payment-reconciler.ts, with the store behind it:
-- packages/persistence-postgres/src/payment-reconciliation-store.ts.
pub mod Store
pub mod Reconciler
pub mod Calls
pub mod Funded
pub mod Commits
pub mod Race
pub mod Retry
pub mod Samples
mod Tests
