-- ===== src/OrchestratorJobs.antt =====
-- The jobs that drive funded runs: packages/persistence-postgres/src/orchestrator-job-queue.ts and
-- apps/orchestrator-worker/src/worker.ts.
pub mod Queue
pub mod Worker
pub mod Parked
mod Tests
