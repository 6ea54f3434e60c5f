-- ===== src/Reconciliation/Reconciler.antt =====
-- `PaymentReconciler`: reconcile, expireRun, sweepExpiredRuns.
use ship_yard.Prelude.{
  ℕ, ◌+◌, Bool, true, false, not, ◌&&◌, Option, none, some, List, [], ◌∷◌, ◌++◌, Text, codes,
  to_lower, same_folded, ltb, leb, if◌then◌else◌, Result, ok, err, ◌>>=◌, ◌>>◌, throw_if,
}
use ship_yard.Dates.{Dates, last_instant}
use ship_yard.Money.{to_string}
use ship_yard.Run.{
  RunAggregate, RunTransitionedEvent, TransitionCommand, TransitionResult, RunError, funded,
  expired, payment_required, payment_reconciler, system, same_status, transition_run,
}
use ship_yard.Settlement.{
  OrderStatus, MerchantOrder, MerchantPaymentProof, TransactionReceipt, SettlementExpectation,
  FailureCode, Ethers, is_successful, verify_settlement,
}
use ship_yard.Reconciliation.Store.{
  FundableRun, VerifiedCustomerPayment, Store, FundedCommit, StoreError, load_fundable_run,
  commit_funded_run, commit_expired_run,
}

pub data ReconcileError : Type 0 where
  run_not_found missing_payment not_awaiting_payment port_failure order_expired : ReconcileError
  receipt_not_available no_event bad_date : ReconcileError
  payment_not_ready : OrderStatus → ReconcileError
  settlement_rejected : List FailureCode → ReconcileError
  refused : RunError → ReconcileError
  not_committed : StoreError → ReconcileError

-- The merchant adapter and the receipt reader; `none` is a call that threw, and a reader that has
-- not seen the transaction returns `some none`.
pub record Ports : Type 0 where
  pub get_order_status : Text → Option MerchantOrder
  pub get_order_proof : Text → Option MerchantPaymentProof
  pub get_transaction_receipt : ℕ → Text → Option (Option TransactionReceipt)

abbrev pub called : {A : Type 0} → ReconcileError → Option A → Result ReconcileError A
called e none = err e
called e (some a) = ok a

abbrev pub ran : Result RunError TransitionResult → Result ReconcileError TransitionResult
ran (err e) = err (refused e)
ran (ok r) = ok r

abbrev pub stored : Result StoreError Store → Result ReconcileError Store
stored (err e) = err (not_committed e)
stored (ok s) = ok s

-- `now.getTime() >= Date.parse(value)`; false on NaN.
abbrev pub reached : Option ℕ → ℕ → Bool
reached none now = false
reached (some t) now = leb t now

-- The payment of a funded run, if it is the one that the run's hash names.
abbrev pub recorded :
    Text → Option VerifiedCustomerPayment → Result ReconcileError VerifiedCustomerPayment
recorded hash none = err missing_payment
recorded hash (some payment) =
    if same_folded payment.proof_hash hash then ok payment else err missing_payment

abbrev pub expectation : FundableRun → SettlementExpectation
expectation context =
    let capability = context.quote.unsigned.capability_snapshot in
    record {
      chain_id = capability.chain_id;
      token_address = capability.token_address;
      payer_address = context.quote.unsigned.request.requester_address;
      recipient_address = capability.receiving_address;
      atomic_amount = context.quote.unsigned.total_atomic_amount;
      order_id = context.payment_order.order_id;
    }

abbrev pub funding_command : RunAggregate → MerchantPaymentProof → Text → TransitionCommand
funding_command run proof now = record {
  actor = payment_reconciler;
  expected_revision = run.revision;
  idempotency_key =
      codes "customer-payment:"
      ++ to_lower proof.transaction_hash
      ++ b':' ∷ to_string proof.log_index;
  occurred_at = now;
  to = funded;
}

abbrev pub expiry_command : RunAggregate → Text → Text → TransitionCommand
expiry_command run key now = record {
  actor = system;
  expected_revision = run.revision;
  idempotency_key = key;
  occurred_at = now;
  to = expired;
}

module _ (dates : Dates) (ethers : Ethers) (keccak256 : Text → Text) (ports : Ports) where
  -- The order of a run that awaits payment, or why it cannot be settled yet.
  abbrev pub settled_order : FundableRun → ℕ → Result ReconcileError MerchantOrder
  settled_order context now = do
    order ← called port_failure (ports.get_order_status context.payment_order.order_id)
    throw_if (not (is_successful order.status) && reached (dates.parse order.expires_at) now)
        order_expired
    throw_if (not (is_successful order.status)) (payment_not_ready order.status)
    ok order

  -- The rest of `reconcile` on a run that awaits payment, up to the commit.
  unfoldable pub funding_of : Text → FundableRun → ℕ → Result ReconcileError FundedCommit
  funding_of run_id context now = do
    order ← settled_order context now
    proof ← called port_failure (ports.get_order_proof order.order_id)
    found ←
        called port_failure (ports.get_transaction_receipt order.chain_id proof.transaction_hash)
    receipt ← called receipt_not_available found
    let verification = verify_settlement ethers order proof receipt (expectation context)
    throw_if (not verification.valid) (settlement_rejected verification.failure_codes)
    let verified_at = dates.to_iso now
    transitioned ←
        ran (transition_run dates context.run (funding_command context.run proof verified_at))
    event ← called no_event transitioned.event
    ok (record {
      previous_revision = context.run.revision;
      run = transitioned.run;
      event = event;
      payment = record {
        run_id = run_id;
        order = order;
        proof = proof;
        receipt = receipt;
        proof_hash = keccak256 verification.payment_proof_hash_material;
        verified_at = verified_at;
      };
    })

  -- The two early ends of `reconcile`: the payment that a funded run records, or nothing yet.
  abbrev pub settled_before :
      FundableRun → Option Text → Result ReconcileError (Option VerifiedCustomerPayment)
  settled_before context none =
      if same_status context.run.status payment_required then ok none else err not_awaiting_payment
  settled_before context (some hash) =
      if same_status context.run.status funded
      then (do payment ← recorded hash context.customer_payment; ok (some payment))
      else (if same_status context.run.status payment_required
          then ok none
          else err not_awaiting_payment)

  abbrev pub conclude :
      Text
      → FundableRun
      → ℕ
      → Store
      → Option VerifiedCustomerPayment
      → Result ReconcileError (VerifiedCustomerPayment × Store)
  conclude run_id context now store (some payment) = ok (payment, store)
  conclude run_id context now store none = do
    funding ← funding_of run_id context now
    next ← stored (commit_funded_run funding store)
    ok (funding.payment, next)

  -- `reconcile`, on a run that was loaded as `context` and a store that may have moved on since.
  unfoldable pub reconcile_loaded :
      Text → FundableRun → ℕ → Store → Result ReconcileError (VerifiedCustomerPayment × Store)
  reconcile_loaded run_id context now store = do
    before ← settled_before context context.customer_payment_proof_hash
    conclude run_id context now store before

  -- `reconcile` with nothing between the load and the commit.
  unfoldable pub reconcile :
      Text → ℕ → Store → Result ReconcileError (VerifiedCustomerPayment × Store)
  reconcile run_id now store = do
    context ← called run_not_found (load_fundable_run run_id store)
    reconcile_loaded run_id context now store

module _ (dates : Dates) where
  -- `Math.max(now, Date.parse(updatedAt) + 1000)` as a date; NaN and a date too far make
  -- `toISOString` throw.
  abbrev pub expiry_time : Option ℕ → ℕ → Result ReconcileError Text
  expiry_time none now = err bad_date
  expiry_time (some updated) now =
      let at = if ltb (updated + 1000) now then now else updated + 1000 in
      if ltb last_instant at then err bad_date else ok (dates.to_iso at)

  abbrev pub commit_expiry :
      RunAggregate
      → Store
      → TransitionResult
      → Option RunTransitionedEvent
      → Result ReconcileError (Bool × Store)
  commit_expiry run store transitioned none = ok (false, store)
  commit_expiry run store transitioned (some event) = do
    next ← stored (
        commit_expired_run
          (record { previous_revision = run.revision; run = transitioned.run; event = event })
          store)
    ok (true, next)

  -- `#expire`
  unfoldable pub expire : RunAggregate → Text → ℕ → Store → Result ReconcileError (Bool × Store)
  expire run key now store = do
    occurred_at ← expiry_time (dates.parse run.updated_at) now
    transitioned ← ran (transition_run dates run (expiry_command run key occurred_at))
    commit_expiry run store transitioned transitioned.event

  abbrev pub expire_loaded : Option FundableRun → ℕ → Store → Result ReconcileError (Bool × Store)
  expire_loaded none now store = ok (false, store)
  expire_loaded (some context) now store =
      if same_status context.run.status payment_required
      then expire context.run (codes "payment-order-expired:" ++ context.payment_order.order_id) now
          store
      else ok (false, store)

  -- `expireRun`
  unfoldable pub expire_run : Text → ℕ → Store → Result ReconcileError (Bool × Store)
  expire_run run_id now store = expire_loaded (load_fundable_run run_id store) now store

  abbrev pub note_expired : Bool → Text → List Text → List Text
  note_expired done id ids = if done then id ∷ ids else ids

  -- `sweepExpiredRuns` on the candidates that the query returned, each with its deadline.
  unfoldable pub sweep_expired_runs :
      List (RunAggregate × Text) → ℕ → Store → Result ReconcileError (List Text × Store)
  sweep_expired_runs [] now store = ok ([], store)
  sweep_expired_runs ((run, deadline) ∷ candidates) now store = do
    (done, next) ← expire run (codes "payment-deadline-passed:" ++ deadline) now store
    (ids, last) ← sweep_expired_runs candidates now next
    ok (note_expired done run.id ids, last)
