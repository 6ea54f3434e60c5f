-- ===== src/OrchestratorJobs/Queue.antt =====
-- packages/persistence-postgres/src/orchestrator-job-queue.ts. Its statements are those of the queue
-- of reconciliation jobs on a table of their own, `orchestrator_jobs`, with the same columns, guards
-- and bounds; it has no `rearm`. So its operations are the modelled ones, on the rows of that table.
use ship_yard.Prelude.{ℕ, Option, List, Text, Result}
use ship_yard.PaymentJobs.Jobs.{Jobs, ClaimedJob, QueueError}
use ship_yard.PaymentJobs.Queue.{
  claim_next as claim_lease, mark_completed as complete_lease, mark_retry as retry_lease,
  mark_waiting as wait_lease, mark_dead_letter as bury_lease,
}

-- The table `orchestrator_jobs`.
abbrev pub OrchestratorTable : Type 0
OrchestratorTable = Jobs

-- `claimNext`
unfoldable pub claim_next :
    Text → ℕ → ℕ → OrchestratorTable → Result QueueError (Option ClaimedJob × OrchestratorTable)
claim_next worker seconds now jobs = claim_lease worker seconds now jobs

-- `markCompleted`
unfoldable pub mark_completed :
    ClaimedJob → ℕ → OrchestratorTable → Result QueueError OrchestratorTable
mark_completed claim now jobs = complete_lease claim now jobs

-- `markRetry`
unfoldable pub mark_retry :
    ClaimedJob → ℕ → Text → ℕ → OrchestratorTable → Result QueueError OrchestratorTable
mark_retry claim delay reason now jobs = retry_lease claim delay reason now jobs

-- `markWaiting`
unfoldable pub mark_waiting :
    ClaimedJob → ℕ → Text → ℕ → OrchestratorTable → Result QueueError OrchestratorTable
mark_waiting claim delay reason now jobs = wait_lease claim delay reason now jobs

-- `markDeadLetter`
unfoldable pub mark_dead_letter :
    ClaimedJob → Text → List Text → OrchestratorTable → Result QueueError OrchestratorTable
mark_dead_letter claim reason failures jobs = bury_lease claim reason failures jobs
