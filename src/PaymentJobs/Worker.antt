-- ===== src/PaymentJobs/Worker.antt =====
-- `PaymentReconciliationJobHandler` and `processNextPaymentJob`.
use ship_yard.Prelude.{
  ℕ, ◌-◌, ◌*◌, ◌^◌, Bool, true, false, ◌||◌, List, [], map, Text, codes, length, ltb, leb, ◌==◌,
  if◌then◌else◌, Result, ok, err, ◌>>◌, throw_if,
}
use ship_yard.Dates.{Dates}
use ship_yard.Settlement.{
  Ethers, FailureCode, order_not_confirmed, order_mismatch, chain_mismatch, token_mismatch,
  payer_mismatch, recipient_mismatch, amount_mismatch, transaction_reverted,
  transaction_hash_mismatch, transfer_log_missing, transfer_log_mismatch,
}
use ship_yard.Reconciliation.Store.{Store, VerifiedCustomerPayment}
use ship_yard.Reconciliation.Reconciler.{
  Ports, ReconcileError, order_expired, settlement_rejected, payment_not_ready,
  receipt_not_available, reconcile, expire_run,
}
use ship_yard.PaymentJobs.Jobs.{Jobs, ClaimedJob, QueueError}
use ship_yard.PaymentJobs.Queue.{mark_completed, mark_waiting, mark_retry, mark_dead_letter}

pub data PaymentJobResult : Type 0 where
  ack : Text → Text → PaymentJobResult
  wait retry : ℕ → Text → PaymentJobResult
  dead : Text → List Text → PaymentJobResult
  resolved : Text → PaymentJobResult

pub data WorkerError : Type 0 where
  invalid_job invalid_bounds : WorkerError
  expiry_failed : ReconcileError → WorkerError
  queue_failed : QueueError → WorkerError

-- The texts that `verifySettlement` pushes.
abbrev pub code_text : FailureCode → Text
code_text order_not_confirmed = codes "ORDER_NOT_CONFIRMED"
code_text order_mismatch = codes "ORDER_MISMATCH"
code_text chain_mismatch = codes "CHAIN_MISMATCH"
code_text token_mismatch = codes "TOKEN_MISMATCH"
code_text payer_mismatch = codes "PAYER_MISMATCH"
code_text recipient_mismatch = codes "RECIPIENT_MISMATCH"
code_text amount_mismatch = codes "AMOUNT_MISMATCH"
code_text transaction_reverted = codes "TRANSACTION_REVERTED"
code_text transaction_hash_mismatch = codes "TRANSACTION_HASH_MISMATCH"
code_text transfer_log_missing = codes "TRANSFER_LOG_MISSING"
code_text transfer_log_mismatch = codes "TRANSFER_LOG_MISMATCH"

-- `validateJob`; the numbers are integers by their type here.
unfoldable pub validate_job : ClaimedJob → Result WorkerError (Unit {0})
validate_job job = do
  throw_if (length job.run_id == 0) invalid_job
  throw_if (ltb job.attempt 1 || ltb job.maximum_attempts 1 || ltb job.maximum_attempts job.attempt)
      invalid_bounds

-- `retryDelay`
unfoldable pub retry_delay : ℕ → ℕ
retry_delay attempt =
    let delay = 5_000 * 2 ^ (attempt - 1) in if ltb delay 30_000 then delay else 30_000

-- `classifyRetryableError`, on whether the message of the error reads like a passing failure.
abbrev pub classify_retryable_error : Bool → Text
classify_retryable_error true = codes "TRANSIENT_DEPENDENCY_FAILURE"
classify_retryable_error false = codes "UNCLASSIFIED_RECONCILIATION_FAILURE"

-- An error that no branch of the `catch` knows.
abbrev pub give_up_or_retry : ClaimedJob → Bool → PaymentJobResult
give_up_or_retry job passing =
    if leb job.maximum_attempts job.attempt
    then dead (classify_retryable_error passing) []
    else retry (retry_delay job.attempt) (classify_retryable_error passing)

-- The `catch` of `handle`, but for the expired order; `reads_transient` is the test on the message.
abbrev pub result_of_error :
    (ReconcileError → Bool) → ClaimedJob → ReconcileError → PaymentJobResult
result_of_error reads_transient job (settlement_rejected failures) =
    dead (codes "DETERMINISTIC_SETTLEMENT_REJECTION") (map code_text failures)
result_of_error reads_transient job (payment_not_ready status) =
    wait (retry_delay job.attempt) (codes "PAYMENT_NOT_READY")
result_of_error reads_transient job receipt_not_available =
    wait (retry_delay job.attempt) (codes "RECEIPT_NOT_YET_AVAILABLE")
result_of_error reads_transient job e = give_up_or_retry job (reads_transient e)

abbrev pub resolve :
    Result ReconcileError (Bool × Store) → Result WorkerError (PaymentJobResult × Store)
resolve (ok (done, next)) = ok (resolved (codes "PAYMENT_ORDER_EXPIRED"), next)
resolve (err e) = err (expiry_failed e)

module _ (dates : Dates) (ethers : Ethers) (keccak256 : Text → Text) (ports : Ports)
    (reads_transient : ReconcileError → Bool) where
  -- What the outcome of `reconcile` makes of a job. An expired order expires the run.
  abbrev pub settle :
      ClaimedJob
      → ℕ
      → Store
      → Result ReconcileError (VerifiedCustomerPayment × Store)
      → Result WorkerError (PaymentJobResult × Store)
  settle job now store (ok (payment, next)) =
      ok (ack payment.proof_hash payment.proof.transaction_hash, next)
  settle job now store (err order_expired) = resolve (expire_run dates job.run_id now store)
  settle job now store (err e) = ok (result_of_error reads_transient job e, store)

  -- `handle`
  unfoldable pub handle : ClaimedJob → ℕ → Store → Result WorkerError (PaymentJobResult × Store)
  unfolding validate_job
  handle job now store = do
    validate_job job
    settle job now store (reconcile dates ethers keccak256 ports job.run_id now store)

-- The `switch` of `processNextPaymentJob`.
unfoldable pub mark : ClaimedJob → PaymentJobResult → ℕ → Jobs → Result QueueError Jobs
mark job (ack hash transaction) now jobs = mark_completed job now jobs
mark job (wait delay reason) now jobs = mark_waiting job delay reason now jobs
mark job (retry delay reason) now jobs = mark_retry job delay reason now jobs
mark job (resolved reason) now jobs = mark_completed job now jobs
mark job (dead reason failures) now jobs = mark_dead_letter job reason failures jobs
