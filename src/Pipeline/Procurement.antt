-- ===== src/Pipeline/Procurement.antt =====
-- apps/orchestrator-worker/src/mandate-builder.ts and pipeline/procurement-phase.ts: a payment for
-- the run's target, on the chain of the worker.
use ship_yard.Prelude.{
  ℕ, ◌+◌, ◌-◌, ◌/◌, Bool, true, false, not, ◌&&◌, Option, none, some, [], ◌∷◌, ◌++◌, map, Text,
  codes, ltb,
}
use ship_yard.Run.{RunStatus}
use ship_yard.Money.{parse_atomic_amount}
use ship_yard.Plan.{CompiledTestPlan}
use ship_yard.Quote.{Quote}
use ship_yard.Policy.Purchase.{
  PurchaseDenialCode, run_terminal, mandate_expired, tool_not_allowed, host_not_allowed,
  self_dealing_tool, self_dealing_host, invalid_amount, single_purchase_limit, total_spend_limit,
  tool_call_limit, retry_limit, additional_approval_required, invalid_idempotency_key, RunMandate,
  PurchaseIntent, PurchaseContext, is_none, authorize_purchase,
}
use ship_yard.Policy.Mandate.{parse_run_mandate}
use ship_yard.Delivery.Scenario.{PaymentHeaderName, x_payment}
use ship_yard.Checkpoint.{Checkpoint, empty_checkpoint, truthy}
use ship_yard.Pipeline.State.{
  procurement_denied, payment_send_ambiguous, mandate_refused, policy_failed, bad_url, bad_amount,
  unreadable_payment, not_persisted, thrown, AcquireInput, AcquiredPayment, RefundInput, acquired,
  nonce_reserved, nonce_asked, refund_sent,
}
use ship_yard.Pipeline.Ports.{Deps}
use ship_yard.Pipeline.Steps.{Step, pure, ◌>>=◌, ◌>>◌, raise_if, lift, or_raise, perform, instant}
use ship_yard.Pipeline.Stores.{merge_checkpoint}

-- What a procurement phase hands on.
pub record Purchase : Type 0 where
  pub purchase_amount : ℕ
  pub payment_transaction_hash : Text
  pub purchase_receipt : Text
  pub payment_header_name : PaymentHeaderName

-- A code is its own text in the source.
unfoldable pub denial_text : PurchaseDenialCode → Text
denial_text run_terminal = codes "RUN_TERMINAL"
denial_text mandate_expired = codes "MANDATE_EXPIRED"
denial_text tool_not_allowed = codes "TOOL_NOT_ALLOWED"
denial_text host_not_allowed = codes "HOST_NOT_ALLOWED"
denial_text self_dealing_tool = codes "SELF_DEALING_TOOL"
denial_text self_dealing_host = codes "SELF_DEALING_HOST"
denial_text invalid_amount = codes "INVALID_AMOUNT"
denial_text single_purchase_limit = codes "SINGLE_PURCHASE_LIMIT"
denial_text total_spend_limit = codes "TOTAL_SPEND_LIMIT"
denial_text tool_call_limit = codes "TOOL_CALL_LIMIT"
denial_text retry_limit = codes "RETRY_LIMIT"
denial_text additional_approval_required = codes "ADDITIONAL_APPROVAL_REQUIRED"
denial_text invalid_idempotency_key = codes "INVALID_IDEMPOTENCY_KEY"

-- The input of `buildMandate`'s parse.
abbrev pub mandate_input : CompiledTestPlan → Text → Text → ℕ → RunMandate
mandate_input plan tool_agent_id host deadline = record {
  maximum_total_spend = plan.tool_budget_atomic;
  maximum_single_purchase = plan.tool_budget_atomic;
  maximum_tool_calls = 1;
  maximum_retries_per_tool = 0;
  allowed_tool_agent_ids = tool_agent_id ∷ [];
  allowed_hosts = host ∷ [];
  required_scenarios = plan.scenarios;
  additional_spend_approval_threshold = plan.tool_budget_atomic;
  deadline = deadline;
}

abbrev pub intent_for : Text → Text → Text → Text → Text → PurchaseIntent
intent_for run_id tool_agent_id host amount key = record {
  run_id = run_id;
  tool_agent_id = tool_agent_id;
  provider_service_id = tool_agent_id;
  host = host;
  atomic_amount = amount;
  idempotency_key = key;
}

-- `MANDATE_VALIDITY_SECONDS`
abbrev pub mandate_validity_seconds : ℕ
mandate_validity_seconds = 900

-- `orchestrator:${runId}:` and the rest of a key.
abbrev pub key_of : Text → Text → Text
key_of run_id rest = codes "orchestrator:" ++ (run_id ++ (codes ":" ++ rest))

-- `refundNonce ?? reserved`
abbrev pub or_default : {A : Type 0} → A → Option A → A
or_default a none = a
or_default a (some b) = b

module _ (d : Deps) where
  abbrev pub purchase_context : ℕ → RunStatus → PurchaseContext
  purchase_context now_seconds status = record {
    now_epoch_seconds = now_seconds;
    run_status = status;
    current_total_spend = codes "0";
    completed_tool_calls = 0;
    prior_attempts_for_tool = 0;
    shipyard_agent_id = d.shipyard_agent_id;
    shipyard_controlled_hosts = [];
    additional_spend_approved = false;
  }

  -- `buildMandate`
  unfoldable pub build_mandate : CompiledTestPlan → Text → Text → ℕ → Step RunMandate
  build_mandate plan tool_agent_id host deadline =
      lift mandate_refused
        (parse_run_mandate d.is_ip (mandate_input plan tool_agent_id host deadline))

  -- The authorisation of a purchase, which throws where it is denied.
  unfoldable pub authorize : RunMandate → PurchaseIntent → PurchaseContext → Step (Unit {0})
  authorize mandate intent context = do
    authorization ← lift policy_failed (authorize_purchase mandate intent context)
    raise_if (not authorization.authorized)
        (procurement_denied (map denial_text authorization.denial_codes))

  -- The part of a checkpoint that the acquisition merges.
  abbrev pub payment_patch : Text → Text → Checkpoint
  payment_patch header nonce = record empty_checkpoint {
    purchase_receipt = some header;
    payment_transaction_hash = some nonce;
    payment_header_name = some x_payment;
  }

  -- The payment that a receipt carries.
  unfoldable pub read_payment : Text → Step (ℕ × Text × Text)
  read_payment receipt = do
    authorization ← or_raise unreadable_payment (d.decode_payment_header receipt)
    pure (authorization.value, authorization.nonce, receipt)

  abbrev pub acquire_input : Quote → ℕ → Text → Text → AcquireInput
  acquire_input quote now_seconds ceiling nonce = record {
    endpoint = quote.unsigned.request.x402_endpoint;
    nonce = nonce;
    valid_after_sec = now_seconds - 60;
    valid_before_sec = now_seconds + mandate_validity_seconds;
    max_amount_atomic = ceiling;
    expected_chain_id = quote.unsigned.capability_snapshot.chain_id;
    allowed_assets = d.procurement_allowed_assets;
  }

  abbrev pub acquire_payment : Quote → ℕ → Text → Step AcquiredPayment
  acquire_payment quote now_seconds ceiling w =
      perform thrown acquired
        (λ n. d.acquire n (acquire_input quote now_seconds ceiling (d.random_nonce n))) w

  -- A payment is signed, and the row that the database kept is the one that counts.
  unfoldable pub acquire_anew : Quote → Text → Step (ℕ × Text × Text)
  unfolding read_payment
  acquire_anew quote ceiling = do
    now ← instant d
    payment ← acquire_payment quote (now / 1000) ceiling
    persisted ←
        merge_checkpoint d (payment_patch payment.payment_header payment.authorization.nonce)
    receipt ← or_raise not_persisted persisted.purchase_receipt
    _ ← or_raise not_persisted persisted.payment_transaction_hash
    read_payment receipt

  -- `if (purchaseReceipt) ... else ...`
  abbrev pub payment_of : Quote → Text → Option Text → Step (ℕ × Text × Text)
  payment_of quote ceiling none = acquire_anew quote ceiling
  payment_of quote ceiling (some receipt) = read_payment receipt

  -- The nonce of the refund: the checkpointed one, or one reserved now.
  abbrev pub refund_nonce_of : Option ℕ → Step ℕ
  refund_nonce_of (some nonce) = pure nonce
  refund_nonce_of none = do
    reserved ← perform thrown nonce_reserved d.reserve_nonce
    persisted ← merge_checkpoint d (record empty_checkpoint { refund_nonce = some reserved })
    pure (or_default reserved persisted.refund_nonce)

  abbrev pub refund_input : Quote → ℕ → ℕ → RefundInput
  refund_input quote amount nonce = record {
    token_address = quote.unsigned.capability_snapshot.token_address;
    to_address = quote.unsigned.request.requester_address;
    value_atomic = amount;
    nonce = nonce;
  }

  -- The refund of what the purchase left of the tool budget.
  unfoldable pub send_refund : Checkpoint → Quote → ℕ → Step (Unit {0})
  send_refund checkpoint quote amount = do
    nonce ← refund_nonce_of checkpoint.refund_nonce
    consumed ← perform thrown (nonce_asked nonce) (λ n. d.is_nonce_consumed n nonce)
    raise_if consumed (payment_send_ambiguous nonce)
    let refund = refund_input quote amount nonce
    hash ← perform thrown (refund_sent refund) (λ n. d.send_refund n refund)
    _ ← merge_checkpoint d (record empty_checkpoint { refund_transaction_hash = some hash })
    pure tt

  abbrev pub refund_if : Bool → Checkpoint → Quote → ℕ → Step (Unit {0})
  refund_if true checkpoint quote amount = send_refund checkpoint quote amount
  refund_if false checkpoint quote amount = pure tt

  -- `if (deps.refundSender) { ... }`
  abbrev pub refund_rest : Bool → Checkpoint → Quote → ℕ → Step (Unit {0})
  refund_rest false checkpoint quote purchase_amount = pure tt
  refund_rest true checkpoint quote purchase_amount = do
    budget ← or_raise bad_amount (parse_atomic_amount quote.unsigned.refundable_tool_budget_atomic)
    refund_if (ltb purchase_amount budget && is_none (truthy checkpoint.refund_transaction_hash))
        checkpoint quote (budget - purchase_amount)

  -- `runProcurementPhase`
  unfoldable pub run_procurement_phase :
      Text → Checkpoint → CompiledTestPlan → Quote → RunStatus → Step Purchase
  unfolding build_mandate authorize acquire_anew read_payment send_refund
  run_procurement_phase run_id checkpoint plan quote status = do
    target ← or_raise bad_url (d.parse_url quote.unsigned.request.x402_endpoint)
    now ← instant d
    let tool_agent_id = quote.unsigned.request.target_agent_id
    mandate ← build_mandate plan tool_agent_id target.host (now / 1000 + mandate_validity_seconds)
    let ceiling = mandate.maximum_single_purchase
    authorize mandate
        (intent_for run_id tool_agent_id target.host ceiling (key_of run_id (codes "procure:1")))
        (purchase_context (now / 1000) status)
    payment ← payment_of quote ceiling (truthy checkpoint.purchase_receipt)
    refund_rest d.refunds checkpoint quote (payment.0)
    pure (record {
      purchase_amount = payment.0;
      payment_transaction_hash = payment.1;
      purchase_receipt = payment.2;
      payment_header_name = x_payment;
    })
