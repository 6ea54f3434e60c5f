-- ===== src/PaymentJobs/Progress.antt =====
-- What becomes of a claimed job.
use ship_yard.Prelude.{
  codes, Result-cases, inl, inr, ◌⊎◌, refl, ℕ, ◌≡◌, ◌≤◌, sym, ap, subst, arith, Bool, true, false,
  not, some, Option, Bool-cases, Text, text_eq_iff, length, leb, ◌==◌, Result, ok, err, >>=-eq-ok,
  throw_if, throw_if-ok, passed, Ensures, Ensures_ok,
}
use ship_yard.Dates.{Dates}
use ship_yard.Table.{find_row}
use ship_yard.Settlement.{Ethers}
use ship_yard.Reconciliation.Store.{Store, VerifiedCustomerPayment}
use ship_yard.Reconciliation.Reconciler.{
  Ports, ReconcileError, run_not_found, missing_payment, not_awaiting_payment, port_failure,
  order_expired, no_event, bad_date, refused, not_committed, settlement_rejected, payment_not_ready,
  receipt_not_available, reconcile, expire_run,
}
use ship_yard.PaymentJobs.Jobs.{
  Job, Jobs, ClaimedJob, processing, key_of_job, is_worker_id, bad_worker_id,
}
use ship_yard.PaymentJobs.Queue.{holds, claimed, claim_of, claim_next}
use ship_yard.PaymentJobs.Worker.{
  PaymentJobResult, resolved, validate_job, give_up_or_retry, result_of_error, settle, resolve,
  handle, mark,
}
use ship_yard.PaymentJobs.Lease.{claim_next-IsClaim}
use ship_yard.PaymentJobs.Mark.{
  IsParked, retry_delay_lem, code_texts, retryable_code, rejection_code, not_ready_code,
  no_receipt_code, IsMarkable, mark-IsParked,
}

give_up_or_retry-IsMarkable :
    (job : ClaimedJob) (passing : Bool) → IsMarkable job (give_up_or_retry job passing)
give_up_or_retry-IsMarkable job passing =
    let delay = retry_delay_lem job.attempt in
    elim (Bool-cases (leb job.maximum_attempts job.attempt)) [
      | inl last ↦ rw last (retryable_code passing, refl)
      | inr more ↦ rw more (retryable_code passing, omega (arith, delay.1), ground (arith, more))
    ]

result_of_error-IsMarkable :
    (reads_transient : ReconcileError → Bool) (job : ClaimedJob) (e : ReconcileError)
    → IsMarkable job (result_of_error reads_transient job e)
result_of_error-IsMarkable reads_transient job run_not_found =
    give_up_or_retry-IsMarkable job (reads_transient run_not_found)
result_of_error-IsMarkable reads_transient job missing_payment =
    give_up_or_retry-IsMarkable job (reads_transient missing_payment)
result_of_error-IsMarkable reads_transient job not_awaiting_payment =
    give_up_or_retry-IsMarkable job (reads_transient not_awaiting_payment)
result_of_error-IsMarkable reads_transient job port_failure =
    give_up_or_retry-IsMarkable job (reads_transient port_failure)
result_of_error-IsMarkable reads_transient job order_expired =
    give_up_or_retry-IsMarkable job (reads_transient order_expired)
result_of_error-IsMarkable reads_transient job no_event =
    give_up_or_retry-IsMarkable job (reads_transient no_event)
result_of_error-IsMarkable reads_transient job bad_date =
    give_up_or_retry-IsMarkable job (reads_transient bad_date)
result_of_error-IsMarkable reads_transient job (refused e) =
    give_up_or_retry-IsMarkable job (reads_transient (refused e))
result_of_error-IsMarkable reads_transient job (not_committed e) =
    give_up_or_retry-IsMarkable job (reads_transient (not_committed e))
result_of_error-IsMarkable reads_transient job (settlement_rejected failures) =
    (rejection_code, code_texts failures)
result_of_error-IsMarkable reads_transient job (payment_not_ready status) =
    (not_ready_code, omega (arith, (retry_delay_lem job.attempt).1))
result_of_error-IsMarkable reads_transient job receipt_not_available =
    (no_receipt_code, omega (arith, (retry_delay_lem job.attempt).1))

pub claim_next-worker :
    (worker : Text) (seconds now : ℕ) (jobs : Jobs) {o : Option ClaimedJob × Jobs}
    → claim_next worker seconds now jobs ≡ ok o
    → is_worker_id worker ≡ true
unfolding claim_next
claim_next-worker worker seconds now jobs h =
    let (_, checked, rest) = >>=-eq-ok (throw_if (not (is_worker_id worker)) bad_worker_id) _ h in
    (passed (is_worker_id worker)).0 (throw_if-ok _ _ checked)

pub holds_own :
    (worker : Text) (x : Job)
    → x.status ≡ processing
    → x.locked_by ≡ some worker
    → holds (claim_of worker x) x ≡ true
holds_own worker x status owner = ground (arith, status, owner, (text_eq_iff worker worker).1 refl)

pub validate_job-ok :
    (job : ClaimedJob)
    → validate_job job ≡ ok tt
    → ((length job.run_id == 0) ≡ false)
      × ((1 ≤ job.attempt) × (job.attempt ≤ job.maximum_attempts))
unfolding validate_job
validate_job-ok job h = (ground arith, (ground arith, ground arith))

pub validate_job_lem :
    (job : ClaimedJob)
    → (length job.run_id == 0) ≡ false
    → 1 ≤ job.attempt
    → job.attempt ≤ job.maximum_attempts
    → validate_job job ≡ ok tt
unfolding validate_job
validate_job_lem job named least most = ground (arith, named)

resolve-IsMarkable :
    (job : ClaimedJob) (m : Result ReconcileError (Bool × Store))
    → Ensures (λ o. IsMarkable job (o.0)) (resolve m)
resolve-IsMarkable job (ok (done, next)) = tt
resolve-IsMarkable job (err e) = tt

module _ (dates : Dates) (ethers : Ethers) (keccak256 : Text → Text) (ports : Ports)
    (reads_transient : ReconcileError → Bool) where
  settle-IsMarkable :
      (job : ClaimedJob) (now : ℕ) (store : Store)
      (m : Result ReconcileError (VerifiedCustomerPayment × Store))
      → Ensures
          (λ o. IsMarkable job (o.0))
          (settle dates ethers keccak256 ports reads_transient job now store m)
  settle-IsMarkable job now store (ok (payment, next)) = tt
  settle-IsMarkable job now store (err order_expired) =
      resolve-IsMarkable job (expire_run dates job.run_id now store)
  settle-IsMarkable job now store (err run_not_found) =
      result_of_error-IsMarkable reads_transient job run_not_found
  settle-IsMarkable job now store (err missing_payment) =
      result_of_error-IsMarkable reads_transient job missing_payment
  settle-IsMarkable job now store (err not_awaiting_payment) =
      result_of_error-IsMarkable reads_transient job not_awaiting_payment
  settle-IsMarkable job now store (err port_failure) =
      result_of_error-IsMarkable reads_transient job port_failure
  settle-IsMarkable job now store (err no_event) =
      result_of_error-IsMarkable reads_transient job no_event
  settle-IsMarkable job now store (err bad_date) =
      result_of_error-IsMarkable reads_transient job bad_date
  settle-IsMarkable job now store (err (refused e)) =
      result_of_error-IsMarkable reads_transient job (refused e)
  settle-IsMarkable job now store (err (not_committed e)) =
      result_of_error-IsMarkable reads_transient job (not_committed e)
  settle-IsMarkable job now store (err (settlement_rejected failures)) =
      result_of_error-IsMarkable reads_transient job (settlement_rejected failures)
  settle-IsMarkable job now store (err (payment_not_ready status)) =
      result_of_error-IsMarkable reads_transient job (payment_not_ready status)
  settle-IsMarkable job now store (err receipt_not_available) =
      result_of_error-IsMarkable reads_transient job receipt_not_available

  handle-IsMarkable :
      (job : ClaimedJob) (now : ℕ) (store : Store) (result : PaymentJobResult) {next : Store}
      → handle dates ethers keccak256 ports reads_transient job now store ≡ ok (result, next)
      → ((length job.run_id == 0) ≡ false)
        × ((1 ≤ job.attempt) × (job.attempt ≤ job.maximum_attempts))
        × IsMarkable job result
  unfolding handle
  handle-IsMarkable job now store result h =
      let (_, valid, rest) = >>=-eq-ok (validate_job job) _ h in
      let (named, bounds) = validate_job-ok job valid in
      (
        named,
        bounds,
        Ensures_ok (λ o. IsMarkable job (o.0))
            (settle dates ethers keccak256 ports reads_transient job now store
              (reconcile dates ethers keccak256 ports job.run_id now store))
            (settle-IsMarkable job now store
              (reconcile dates ethers keccak256 ports job.run_id now store))
            rest,
      )

  -- A claimed job never gets stuck: whenever the handler returns on a job that a worker has just
  -- claimed, whatever the payment came to, the queue takes its result, and leaves the job's row
  -- completed, dead or scheduled again with attempts left.
  pub handle-IsParked :
      (worker : Text) (seconds queue_now : ℕ) (jobs claimed_jobs : Jobs) (job : ClaimedJob)
      (now later : ℕ) (store next : Store) (result : PaymentJobResult)
      → claim_next worker seconds queue_now jobs ≡ ok (some job, claimed_jobs)
      → handle dates ethers keccak256 ports reads_transient job now store ≡ ok (result, next)
      → (after : Jobs) × (mark job result later claimed_jobs ≡ ok after)
        × ((x : Job) × (find_row key_of_job job.run_id after ≡ some x) × IsParked x)
  handle-IsParked worker seconds queue_now jobs claimed_jobs job now later store next result claim
        handled =
      let c = claim_next-IsClaim worker seconds queue_now jobs claim in
      let (named, bounds, can) = handle-IsMarkable job now store result handled in
      let mine = claimed worker queue_now c.job in
      let owner : is_worker_id job.lease_owner ≡ true =
        subst (λ y. is_worker_id y.lease_owner ≡ true) (sym c.claim)
          (claim_next-worker worker seconds queue_now jobs claim) in
      let held : holds job mine ≡ true =
        subst (λ y. holds y mine ≡ true) (sym c.claim) (holds_own worker mine refl refl) in
      mark-IsParked job result later claimed_jobs owner named bounds
        (ap (λ y. y.attempt) c.claim, ap (λ y. y.maximum_attempts) c.claim) can c.row held

  -- The expiry of the run is all that can stop the handler.
  settle_returns :
      (job : ClaimedJob) (now : ℕ) (store : Store)
      (m : Result ReconcileError (VerifiedCustomerPayment × Store))
      → ((out : PaymentJobResult × Store) × (settle dates ethers keccak256 ports reads_transient job
              now store m
            ≡ ok out))
        ⊎ ((m ≡ err order_expired)
            × ((e : ReconcileError) × (expire_run dates job.run_id now store ≡ err e)))
  settle_returns job now store (ok (payment, next)) = inl (_, refl)
  settle_returns job now store (err order_expired) =
      elim (Result-cases (expire_run dates job.run_id now store)) [
        | inl (e, bad) ↦ inr (refl, (e, bad))
        | inr (out, good) ↦ inl ((resolved (codes "PAYMENT_ORDER_EXPIRED"), out.1), rw good refl)
      ]
  settle_returns job now store (err run_not_found) = inl (_, refl)
  settle_returns job now store (err missing_payment) = inl (_, refl)
  settle_returns job now store (err not_awaiting_payment) = inl (_, refl)
  settle_returns job now store (err port_failure) = inl (_, refl)
  settle_returns job now store (err no_event) = inl (_, refl)
  settle_returns job now store (err bad_date) = inl (_, refl)
  settle_returns job now store (err (refused e)) = inl (_, refl)
  settle_returns job now store (err (not_committed e)) = inl (_, refl)
  settle_returns job now store (err (settlement_rejected failures)) = inl (_, refl)
  settle_returns job now store (err (payment_not_ready status)) = inl (_, refl)
  settle_returns job now store (err receipt_not_available) = inl (_, refl)

  -- The handler returns a result for every job with a run id and an attempt within its bounds: unless
  -- the order has expired and the expiry of the run fails, no error of the reconciliation gets past
  -- it.
  pub handle_returns :
      (job : ClaimedJob) (now : ℕ) (store : Store)
      → (length job.run_id == 0) ≡ false
      → 1 ≤ job.attempt
      → job.attempt ≤ job.maximum_attempts
      → ((out : PaymentJobResult × Store) × (handle dates ethers keccak256 ports reads_transient job
              now store
            ≡ ok out))
        ⊎ ((reconcile dates ethers keccak256 ports job.run_id now store ≡ err order_expired)
            × ((e : ReconcileError) × (expire_run dates job.run_id now store ≡ err e)))
  unfolding handle
  handle_returns job now store named least most =
      rw (validate_job_lem job named least most)
        (settle_returns job now store (reconcile dates ethers keccak256 ports job.run_id now store))
