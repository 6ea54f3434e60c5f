-- ===== src/OrchestratorJobs/Worker.antt =====
-- apps/orchestrator-worker/src/worker.ts: what becomes of a job that drives a run.
use ship_yard.Prelude.{
  ℕ, ◌-◌, ◌*◌, ◌^◌, Bool, true, false, ◌||◌, List, [], Text, codes, length, ltb, leb, ◌==◌,
  if◌then◌else◌, Result, ok, err, ◌>>◌, throw_if,
}
use ship_yard.Run.{RunStatus}
use ship_yard.PaymentJobs.Jobs.{ClaimedJob, QueueError}
use ship_yard.Pipeline.{
  World, Deps, Outcome, PipelineError, run_not_ready, procurement_denied, payment_send_ambiguous,
  bridge_delivery_pending, cross_chain_settlement_ambiguous, PipelineResult,
  run_orchestrator_pipeline, finalize_run_as_inconclusive,
}
use ship_yard.OrchestratorJobs.Queue.{
  OrchestratorTable, mark_completed, mark_retry, mark_waiting, mark_dead_letter,
}

pub data OrchestratorJobResult : Type 0 where
  ack : RunStatus → Text → OrchestratorJobResult
  retry wait : ℕ → Text → OrchestratorJobResult
  dead : Text → List Text → OrchestratorJobResult

pub data JobError : Type 0 where
  invalid_job invalid_bounds : JobError

-- `validateJob`; the numbers are integers by their type here.
unfoldable pub validate_job : ClaimedJob → Result JobError (Unit {0})
validate_job job = do
  throw_if (length job.run_id == 0) invalid_job
  throw_if (ltb job.attempt 1 || ltb job.maximum_attempts 1 || ltb job.maximum_attempts job.attempt)
      invalid_bounds

-- `retryDelay`
unfoldable pub retry_delay : ℕ → ℕ
retry_delay attempt =
    let delay = 5_000 * 2 ^ (attempt - 1) in if ltb delay 60_000 then delay else 60_000

-- `classifyRetryableError`, on whether the message of the error or of its cause reads like a passing
-- failure.
abbrev pub classify_retryable_error : Bool → Text
classify_retryable_error true = codes "TRANSIENT_DEPENDENCY_FAILURE"
classify_retryable_error false = codes "UNCLASSIFIED_ORCHESTRATION_FAILURE"

module _ (d : Deps) (reads_transient : PipelineError → Bool) where
  -- `#deadLetter`: the run is finalised first, if that is possible.
  abbrev pub dead_letter : Text → Text → List Text → World → OrchestratorJobResult × World
  dead_letter run_id reason failures w =
      (dead reason failures, (finalize_run_as_inconclusive d run_id reason w).1)

  -- An error that no other branch of the `catch` knows.
  abbrev pub give_up_or_retry : ClaimedJob → PipelineError → World → OrchestratorJobResult × World
  give_up_or_retry job e w =
      if leb job.maximum_attempts job.attempt
      then dead_letter job.run_id (codes "PIPELINE_RETRIES_EXHAUSTED") [] w
      else (retry (retry_delay job.attempt) (classify_retryable_error (reads_transient e)), w)

  -- The `catch` of `handle`.
  abbrev pub result_of_error : ClaimedJob → PipelineError → World → OrchestratorJobResult × World
  result_of_error job (run_not_ready status) w = (dead (codes "UNEXPECTED_RUN_STATE") [], w)
  result_of_error job (procurement_denied denials) w =
      dead_letter job.run_id (codes "PROCUREMENT_DENIED") denials w
  result_of_error job (payment_send_ambiguous nonce) w =
      (dead (codes "PAYMENT_SEND_AMBIGUOUS_NEEDS_MANUAL_RECONCILIATION") [], w)
  result_of_error job cross_chain_settlement_ambiguous w =
      (dead (codes "BNB_SETTLEMENT_AMBIGUOUS_NEEDS_MANUAL_RECONCILIATION") [], w)
  result_of_error job bridge_delivery_pending w = (wait 15_000 (codes "BRIDGE_DELIVERY_PENDING"), w)
  result_of_error job e w = give_up_or_retry job e w

  -- What the outcome of the pipeline makes of a job.
  abbrev pub settle_job : ClaimedJob → Outcome PipelineResult → OrchestratorJobResult × World
  settle_job job (ok result, w) = (ack result.final_status result.attestation_transaction_hash, w)
  settle_job job (err e, w) = result_of_error job e w

  -- `handle`
  unfoldable pub handle : ClaimedJob → World → Result JobError (OrchestratorJobResult × World)
  unfolding validate_job
  handle job w = do validate_job job; ok (settle_job job (run_orchestrator_pipeline d job.run_id w))

-- The `switch` of `processNextOrchestratorJob`, on a queue that has `markWaiting`.
unfoldable pub mark :
    ClaimedJob → OrchestratorJobResult → ℕ → OrchestratorTable → Result QueueError OrchestratorTable
mark job (ack status hash) now jobs = mark_completed job now jobs
mark job (retry delay reason) now jobs = mark_retry job delay reason now jobs
mark job (wait delay reason) now jobs = mark_waiting job delay reason now jobs
mark job (dead reason failures) now jobs = mark_dead_letter job reason failures jobs
