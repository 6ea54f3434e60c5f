-- ===== src/PaymentJobs.antt =====
-- The reconciliation jobs: packages/persistence-postgres/src/payment-job-queue.ts and
-- apps/payment-worker/src/worker.ts.
pub mod Jobs
pub mod Queue
pub mod Worker
pub mod Lease
pub mod Consistent
pub mod Mark
pub mod Progress
mod Tests
