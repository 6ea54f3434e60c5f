-- ===== src/OrchestratorJobs/Parked.antt =====
-- What becomes of a claimed job.
use ship_yard.Prelude.{
  ℕ, ◌-◌, ◌≡◌, ◌≤◌, refl, sym, ap, subst, arith, Bool, true, false, some, List, Text, codes, length,
  leb, ◌==◌, Bool-cases, inl, inr, ok, err,
}
use native.Mathlib.Nat.{one-le-pow}
use ship_yard.Table.{find_row}
use ship_yard.PaymentJobs.Jobs.{
  Job, Jobs, ClaimedJob, key_of_job, is_error_code, all_error_codes, is_worker_id,
}
use ship_yard.PaymentJobs.Queue.{holds, claimed}
use ship_yard.PaymentJobs.Worker.{PaymentJobResult, resolved, mark as mark_payment_job}
use ship_yard.PaymentJobs.Lease.{claim_next-IsClaim}
use ship_yard.PaymentJobs.Mark.{IsParked, IsMarkable, mark-IsParked as mark_payment_job-IsParked}
use ship_yard.PaymentJobs.Progress.{claim_next-worker, holds_own}
use ship_yard.Pipeline.{
  PipelineError, run_not_found, quote_not_found, missing_payment, run_not_ready, procurement_denied,
  payment_send_ambiguous, bridge_delivery_pending, cross_chain_settlement_ambiguous,
  transition_refused, plan_refused, mandate_refused, policy_failed, intent_refused,
  scenario_refused, bad_url, bad_amount, run_revision_conflict, unreadable_payment, not_persisted,
  no_executor, not_settled, no_bridge, bridge_timeout, bridge_ended, uncovered_funding,
  no_response_hash, no_receipts, thrown, pipeline_failed, World, Deps, Outcome, PipelineResult,
  run_orchestrator_pipeline,
}
use ship_yard.OrchestratorJobs.Queue.{
  claim_next, mark_completed, mark_retry, mark_waiting, mark_dead_letter,
}
use ship_yard.OrchestratorJobs.Worker.{
  OrchestratorJobResult, ack, retry, wait, dead, validate_job, retry_delay,
  classify_retryable_error, give_up_or_retry, result_of_error, settle_job, handle, mark,
}

-- A delay is at least five seconds and at most a minute.
retry_delay_lem : (attempt : ℕ) → (5_000 ≤ retry_delay attempt) × (retry_delay attempt ≤ 60_000)
unfolding retry_delay
retry_delay_lem attempt = (ground (arith, one-le-pow (attempt - 1) 2 (omega arith)), ground arith)

-- The same result of a reconciliation job.
abbrev lease_result : OrchestratorJobResult → PaymentJobResult
lease_result (ack status hash) = resolved hash
lease_result (retry delay reason) = PaymentJobResult.retry delay reason
lease_result (wait delay reason) = PaymentJobResult.wait delay reason
lease_result (dead reason failures) = PaymentJobResult.dead reason failures

mark_lease :
    (job : ClaimedJob) (result : OrchestratorJobResult) (now : ℕ) (jobs : Jobs)
    → mark job result now jobs ≡ mark_payment_job job (lease_result result) now jobs
unfolding mark mark_completed mark_retry mark_waiting mark_dead_letter mark_payment_job
mark_lease job (ack status hash) now jobs = refl
mark_lease job (retry delay reason) now jobs = refl
mark_lease job (wait delay reason) now jobs = refl
mark_lease job (dead reason failures) now jobs = refl

-- The reasons of the handler are error codes.
reason_codes :
    (is_error_code (codes "UNEXPECTED_RUN_STATE") ≡ true)
    × (is_error_code (codes "PROCUREMENT_DENIED") ≡ true)
    × (is_error_code (codes "PAYMENT_SEND_AMBIGUOUS_NEEDS_MANUAL_RECONCILIATION") ≡ true)
    × (is_error_code (codes "BNB_SETTLEMENT_AMBIGUOUS_NEEDS_MANUAL_RECONCILIATION") ≡ true)
    × (is_error_code (codes "BRIDGE_DELIVERY_PENDING") ≡ true)
    × (is_error_code (codes "PIPELINE_RETRIES_EXHAUSTED") ≡ true)
unfolding is_error_code codes
reason_codes = (refl, refl, refl, refl, refl, refl)

transient_code : (passing : Bool) → is_error_code (classify_retryable_error passing) ≡ true
unfolding is_error_code codes
transient_code true = refl
transient_code false = refl

validate_job_lem :
    (job : ClaimedJob)
    → (length job.run_id == 0) ≡ false
    → 1 ≤ job.attempt
    → job.attempt ≤ job.maximum_attempts
    → validate_job job ≡ ok tt
unfolding validate_job
validate_job_lem job named least most = ground (arith, named)

-- The queue takes the result.
abbrev Markable : ClaimedJob → OrchestratorJobResult × World → Type 0
Markable job out = IsMarkable job (lease_result (out.0))

module _ (d : Deps) (reads_transient : PipelineError → Bool) where
  give_up_or_retry-Markable :
      (job : ClaimedJob) (e : PipelineError) (w : World)
      → Markable job (give_up_or_retry d reads_transient job e w)
  give_up_or_retry-Markable job e w =
      let delay = retry_delay_lem job.attempt in
      let (_, _, _, _, _, exhausted) = reason_codes in
      elim (Bool-cases (leb job.maximum_attempts job.attempt)) [
        | inl last ↦ rw last (exhausted, refl)
        | inr more ↦
            rw more
              (transient_code (reads_transient e), omega (arith, delay.1), ground (arith, more))
      ]

  result_of_error-Markable :
      (job : ClaimedJob) (e : PipelineError) (w : World)
      → ((denials : List Text) → e ≡ procurement_denied denials → all_error_codes denials ≡ true)
      → Markable job (result_of_error d reads_transient job e w)
  result_of_error-Markable job (run_not_ready status) w named =
      let (unexpected, _, _, _, _, _) = reason_codes in (unexpected, refl)
  result_of_error-Markable job (procurement_denied denials) w named =
      let (_, denied, _, _, _, _) = reason_codes in (denied, named denials refl)
  result_of_error-Markable job (payment_send_ambiguous nonce) w named =
      let (_, _, ambiguous, _, _, _) = reason_codes in (ambiguous, refl)
  result_of_error-Markable job cross_chain_settlement_ambiguous w named =
      let (_, _, _, ambiguous, _, _) = reason_codes in (ambiguous, refl)
  result_of_error-Markable job bridge_delivery_pending w named =
      let (_, _, _, _, pending, _) = reason_codes in (pending, omega arith)
  result_of_error-Markable job run_not_found w named = give_up_or_retry-Markable job run_not_found w
  result_of_error-Markable job quote_not_found w named =
      give_up_or_retry-Markable job quote_not_found w
  result_of_error-Markable job missing_payment w named =
      give_up_or_retry-Markable job missing_payment w
  result_of_error-Markable job (transition_refused e) w named =
      give_up_or_retry-Markable job (transition_refused e) w
  result_of_error-Markable job (plan_refused e) w named =
      give_up_or_retry-Markable job (plan_refused e) w
  result_of_error-Markable job (mandate_refused e) w named =
      give_up_or_retry-Markable job (mandate_refused e) w
  result_of_error-Markable job (policy_failed e) w named =
      give_up_or_retry-Markable job (policy_failed e) w
  result_of_error-Markable job (intent_refused e) w named =
      give_up_or_retry-Markable job (intent_refused e) w
  result_of_error-Markable job (scenario_refused e) w named =
      give_up_or_retry-Markable job (scenario_refused e) w
  result_of_error-Markable job bad_url w named = give_up_or_retry-Markable job bad_url w
  result_of_error-Markable job bad_amount w named = give_up_or_retry-Markable job bad_amount w
  result_of_error-Markable job run_revision_conflict w named =
      give_up_or_retry-Markable job run_revision_conflict w
  result_of_error-Markable job unreadable_payment w named =
      give_up_or_retry-Markable job unreadable_payment w
  result_of_error-Markable job not_persisted w named = give_up_or_retry-Markable job not_persisted w
  result_of_error-Markable job no_executor w named = give_up_or_retry-Markable job no_executor w
  result_of_error-Markable job not_settled w named = give_up_or_retry-Markable job not_settled w
  result_of_error-Markable job no_bridge w named = give_up_or_retry-Markable job no_bridge w
  result_of_error-Markable job bridge_timeout w named =
      give_up_or_retry-Markable job bridge_timeout w
  result_of_error-Markable job bridge_ended w named = give_up_or_retry-Markable job bridge_ended w
  result_of_error-Markable job uncovered_funding w named =
      give_up_or_retry-Markable job uncovered_funding w
  result_of_error-Markable job no_response_hash w named =
      give_up_or_retry-Markable job no_response_hash w
  result_of_error-Markable job no_receipts w named = give_up_or_retry-Markable job no_receipts w
  result_of_error-Markable job (thrown e) w named = give_up_or_retry-Markable job (thrown e) w
  result_of_error-Markable job (pipeline_failed e) w named =
      give_up_or_retry-Markable job (pipeline_failed e) w

  settle_job-Markable :
      (job : ClaimedJob) (o : Outcome PipelineResult)
      → ((denials : List Text) (w : World)
          → o ≡ (err (procurement_denied denials), w)
          → all_error_codes denials ≡ true)
      → Markable job (settle_job d reads_transient job o)
  settle_job-Markable job (ok result, w) named = tt
  settle_job-Markable job (err e, w) named =
      result_of_error-Markable job e w (λ denials h. named denials w (rw h refl))

  -- A claimed job never gets stuck: on a job that a worker has just claimed, with a run id and its
  -- attempt within its bounds, the handler returns, whatever the pipeline and the finalisation of the
  -- run come to; the queue takes the result, and leaves the job's row completed, dead or scheduled
  -- again with attempts left. The codes of a denial, some of which a payer of another chain chooses,
  -- must be error codes.
  pub mark-handle-IsParked :
      (worker : Text) (seconds queue_now : ℕ) (jobs claimed_jobs : Jobs) (job : ClaimedJob)
      (later : ℕ) (w : World)
      → claim_next worker seconds queue_now jobs ≡ ok (some job, claimed_jobs)
      → (length job.run_id == 0) ≡ false
      → (1 ≤ job.attempt) × (job.attempt ≤ job.maximum_attempts)
      → ((denials : List Text) (v : World)
          → run_orchestrator_pipeline d job.run_id w ≡ (err (procurement_denied denials), v)
          → all_error_codes denials ≡ true)
      → (out : OrchestratorJobResult × World) × (handle d reads_transient job w ≡ ok out)
        × ((after : Jobs) × (mark job (out.0) later claimed_jobs ≡ ok after)
            × ((x : Job) × (find_row key_of_job job.run_id after ≡ some x) × IsParked x))
  unfolding claim_next handle
  mark-handle-IsParked worker seconds queue_now jobs claimed_jobs job later w claim has_id bounds
        named =
      let c = claim_next-IsClaim worker seconds queue_now jobs claim in
      let out = settle_job d reads_transient job (run_orchestrator_pipeline d job.run_id w) in
      let can : IsMarkable job (lease_result (out.0)) =
        settle_job-Markable job (run_orchestrator_pipeline d job.run_id w) named in
      let mine = claimed worker queue_now c.job in
      let owner : is_worker_id job.lease_owner ≡ true =
        subst (λ y. is_worker_id y.lease_owner ≡ true) (sym c.claim)
          (claim_next-worker worker seconds queue_now jobs claim) in
      let held : holds job mine ≡ true =
        subst (λ y. holds y mine ≡ true) (sym c.claim) (holds_own worker mine refl refl) in
      (
        out,
        rw (validate_job_lem job has_id (bounds.0) (bounds.1)) refl,
        rw (mark_lease job (out.0) later claimed_jobs) (
            mark_payment_job-IsParked job (lease_result (out.0)) later claimed_jobs owner has_id
              bounds (ap (λ y. y.attempt) c.claim, ap (λ y. y.maximum_attempts) c.claim) can c.row
              held),
      )
