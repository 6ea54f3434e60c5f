-- ===== src/Pipeline/CrossChain.antt =====
-- apps/orchestrator-worker/src/pipeline/cross-chain-procurement-phase.ts: the target is paid on
-- another chain, where the payer may have to be funded over a bridge first.
use ship_yard.Prelude.{
  ℕ, ◌+◌, ◌/◌, Bool, true, false, not, Option, none, some, List, [], ◌∷◌, ◌++◌, Text, codes, ◌==◌,
  Result, ok, err,
}
use ship_yard.Run.{RunStatus}
use ship_yard.Money.{parse_atomic_amount}
use ship_yard.Plan.{CompiledTestPlan}
use ship_yard.Quote.{Quote}
use ship_yard.Delivery.Scenario.{payment_signature}
use ship_yard.Checkpoint.{Checkpoint, empty_checkpoint, truthy}
use ship_yard.Pipeline.State.{
  RunQuote, procurement_denied, bad_url, bad_amount, not_persisted, thrown, TargetPayment,
  PayerError, not_payable, payer_threw, LegStatus, confirmed, target_paid,
}
use ship_yard.Pipeline.Ports.{
  Bridge, PayerMode, bridge_then_pay, prefunded, PayerRegistration, Deps,
}
use ship_yard.Pipeline.Steps.{Step, pure, raise, ◌>>=◌, ◌>>◌, or_raise, tick, logged, instant}
use ship_yard.Pipeline.Stores.{merge_checkpoint}
use ship_yard.Pipeline.Procurement.{
  Purchase, intent_for, mandate_validity_seconds, key_of, purchase_context, build_mandate,
  authorize,
}
use ship_yard.Pipeline.Bridging.{leg, record_leg, fund_destination_by_bridge}

-- `find((payer) => payer.chainId === chain)`
abbrev pub find_payer : ℕ → List PayerRegistration → Option PayerRegistration
find_payer chain [] = none
find_payer chain (p ∷ ps) = elim (p.chain_id == chain) [
  | true ↦ some p
  | false ↦ find_payer chain ps
]

-- `quote.targetChainId !== undefined && quote.targetChainId !== deps.homeChainId`
abbrev pub is_remote : ℕ → Option ℕ → Bool
is_remote home none = false
is_remote home (some chain) = not (chain == home)

abbrev pub payer_for : Bool → Option ℕ → List PayerRegistration → Option PayerRegistration
payer_for true (some chain) payers = find_payer chain payers
payer_for _ _ payers = none

-- `crossChain.bridge ? 'bridge' : 'prefunded'`
abbrev pub rail_name : Option Bridge → Text
rail_name none = codes "prefunded"
rail_name (some b) = codes "bridge"

-- What the target was paid with.
pub record TargetReceipt : Type 0 where
  pub receipt : Text
  pub proof_hash : Text
  pub amount_atomic : Text

-- Three texts of a checkpoint, where all of them are there.
abbrev pub receipt_of : Option Text → Option Text → Option Text → Option TargetReceipt
receipt_of (some receipt) (some hash) (some amount) =
    some (record { receipt = receipt; proof_hash = hash; amount_atomic = amount })
receipt_of _ _ _ = none

-- The receipt that a checkpoint holds.
abbrev pub checkpointed_receipt : Checkpoint → Option TargetReceipt
checkpointed_receipt checkpoint =
    receipt_of (truthy checkpoint.purchase_receipt) (truthy checkpoint.payment_transaction_hash)
      (truthy checkpoint.target_payment_amount_atomic)

module _ (d : Deps) where
  -- `targetIsRemote`
  unfoldable pub target_is_remote : RunQuote → Bool
  target_is_remote quote = is_remote d.home_chain_id quote.target_chain_id

  -- `resolveCrossChainPayer`
  unfoldable pub resolve_cross_chain_payer : RunQuote → Option PayerRegistration
  unfolding target_is_remote
  resolve_cross_chain_payer quote =
      payer_for (target_is_remote quote) quote.target_chain_id d.cross_chain_payers

  -- `authorizeProcurement`
  unfoldable pub authorize_procurement :
      PayerRegistration → Text → CompiledTestPlan → Quote → Text → RunStatus → ℕ → Step (Unit {0})
  authorize_procurement payer run_id plan quote host status now_seconds = do
    let tool_agent_id = quote.unsigned.request.target_agent_id
    mandate ← build_mandate d plan tool_agent_id host (now_seconds + mandate_validity_seconds)
    authorize d mandate
        (intent_for run_id tool_agent_id host payer.policy_cost_atomic
          (key_of run_id (rail_name payer.bridge ++ codes ":1")))
        (purchase_context d now_seconds status)

  -- The `catch` around `acquire`: terms that the payer cannot meet are a denial.
  abbrev pub paid_or_denied : Result PayerError TargetPayment → Step TargetPayment
  paid_or_denied (ok payment) = pure payment
  paid_or_denied (err (payer_threw message)) = raise (thrown message)
  paid_or_denied (err (not_payable codes)) = do
    record_leg d (leg 1 LegStatus.failed none none)
    raise (procurement_denied codes)

  abbrev pub acquire_target : Text → Text → Step TargetPayment
  acquire_target endpoint key w =
      paid_or_denied (d.pay_target (tick w) endpoint key) (logged (target_paid key) w)

  abbrev pub target_patch : TargetPayment → Checkpoint
  target_patch payment = record empty_checkpoint {
    purchase_receipt = some payment.payment_receipt;
    payment_transaction_hash = some payment.payment_proof_hash;
    target_payment_amount_atomic = some payment.amount_atomic;
    payment_header_name = some payment_signature;
  }

  -- `authorizeTargetPayment`, on the receipt that the checkpoint holds.
  abbrev pub target_payment_of : Text → Text → Option TargetReceipt → Step TargetReceipt
  target_payment_of run_id endpoint (some receipt) = pure receipt
  target_payment_of run_id endpoint none = do
    payment ← acquire_target endpoint (key_of run_id (codes "target-x402:1"))
    persisted ← merge_checkpoint d (target_patch payment)
    or_raise not_persisted (checkpointed_receipt persisted)

  abbrev pub fund_if_bridged :
      PayerMode → PayerRegistration → Text → Checkpoint → ℕ → ℕ → Step (Unit {0})
  fund_if_bridged bridge_then_pay payer run_id checkpoint now_seconds now =
      fund_destination_by_bridge d payer run_id checkpoint now_seconds now
  fund_if_bridged prefunded payer run_id checkpoint now_seconds now = pure tt

  -- `runCrossChainProcurementPhase`
  unfoldable pub run_cross_chain_procurement_phase :
      PayerRegistration → Text → Checkpoint → CompiledTestPlan → Quote → RunStatus → Step Purchase
  unfolding authorize_procurement record_leg fund_destination_by_bridge
  run_cross_chain_procurement_phase payer run_id checkpoint plan quote status = do
    now ← instant d
    let endpoint = quote.unsigned.request.x402_endpoint
    target ← or_raise bad_url (d.parse_url endpoint)
    authorize_procurement payer run_id plan quote target.host status (now / 1000)
    fund_if_bridged payer.mode payer run_id checkpoint (now / 1000) now
    record_leg d (leg 1 LegStatus.pending none none)
    receipt ← target_payment_of run_id endpoint (checkpointed_receipt checkpoint)
    record_leg d (leg 1 confirmed none (some receipt.amount_atomic))
    amount ← or_raise bad_amount (parse_atomic_amount receipt.amount_atomic)
    pure (record {
      purchase_amount = amount;
      payment_transaction_hash = receipt.proof_hash;
      purchase_receipt = receipt.receipt;
      payment_header_name = payment_signature;
    })
