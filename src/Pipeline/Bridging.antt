-- ===== src/Pipeline/Bridging.antt =====
-- apps/orchestrator-worker/src/pipeline/cross-chain-procurement-phase.ts: the payer on the other
-- chain is funded over a bridge.
use ship_yard.Prelude.{ℕ, ◌+◌, ◌*◌, Bool, true, false, Option, none, some, Text, codes, ltb, ok}
use ship_yard.Money.{parse_atomic_amount}
use ship_yard.CrossChain.{CrossChainProcurementIntent, create_cross_chain_procurement_intent}
use ship_yard.Checkpoint.{Checkpoint, empty_checkpoint, truthy}
use ship_yard.Pipeline.State.{
  bridge_delivery_pending, intent_refused, bad_amount, not_persisted, no_bridge, bridge_timeout,
  bridge_ended, uncovered_funding, thrown, BridgeState, destination_funded, BridgeSubmission,
  LegStatus, confirmed, Leg, bridge_quoted, bridge_submitted, bridge_asked, leg_recorded,
}
use ship_yard.Pipeline.Ports.{Bridge, PayerRegistration, Deps}
use ship_yard.Pipeline.Steps.{
  Step, pure, raise, ◌>>=◌, ◌>>◌, raise_if, lift, or_raise, logged, perform,
}
use ship_yard.Pipeline.Stores.{merge_checkpoint}
use ship_yard.Pipeline.Procurement.{mandate_validity_seconds, key_of}

abbrev pub leg : ℕ → LegStatus → Option Text → Option Text → Leg
leg index status hash amount = record {
  leg_index = index;
  status = status;
  transaction_hash = hash;
  amount_atomic = amount;
}

abbrev pub both_texts : Option Text → Option Text → Option (Text × Text)
both_texts (some a) (some b) = some (a, b)
both_texts _ _ = none

-- `submittedAt !== undefined && nowSec - submittedAt > maximum`
abbrev pub is_overdue : ℕ → ℕ → Option ℕ → Bool
is_overdue now_seconds maximum none = false
is_overdue now_seconds maximum (some submitted_at) = ltb (submitted_at + maximum) now_seconds

module _ (d : Deps) where
  -- `recordLeg`: whatever the store answers, nothing depends on it.
  abbrev pub record_leg_if : Bool → Leg → Step (Unit {0})
  record_leg_if false l = pure tt
  record_leg_if true l = λ w. (ok tt, logged (leg_recorded l) w)

  unfoldable pub record_leg : Leg → Step (Unit {0})
  record_leg l = record_leg_if d.settlement_legs l

  abbrev pub intent_input : PayerRegistration → Bridge → Text → ℕ → CrossChainProcurementIntent
  intent_input payer bridge run_id now = record {
    run_id = run_id;
    funding = record {
      asset = bridge.funding_asset;
      payer_address = bridge.source_bridge_payer_address;
      maximum_atomic_amount = bridge.source_bridge_amount_atomic;
    };
    target = record {
      asset = payer.settlement_asset;
      payer_address = payer.destination_payer_address;
      pay_to_address = truthy payer.target_pay_to_address;
      maximum_atomic_amount = payer.target_payment_amount_atomic;
    };
    expires_at = d.dates.to_iso (now + mandate_validity_seconds * 1000);
  }

  abbrev pub submission_patch : Bridge → BridgeSubmission → ℕ → Checkpoint
  submission_patch bridge submission now_seconds = record empty_checkpoint {
    bridge_provider = some bridge.provider;
    bridge_transfer_id = some submission.transfer_id;
    bridge_source_transaction_hash = some submission.source_transaction_hash;
    bridge_submitted_at = some now_seconds;
  }

  -- The transfer over the bridge: the checkpointed one, or one submitted now; its id and when it was
  -- submitted.
  abbrev pub transfer_of :
      Bridge
      → CrossChainProcurementIntent
      → Text
      → ℕ
      → Option ℕ
      → Option (Text × Text)
      → Step (Text × Option ℕ)
  transfer_of bridge intent run_id now_seconds submitted_at (some (transfer, hash)) =
      pure (transfer, submitted_at)
  transfer_of bridge intent run_id now_seconds submitted_at none = do
    quote ← perform thrown bridge_quoted (λ n. d.quote_bridge n intent)
    let key = key_of run_id (codes "bridge:1")
    submission ← perform thrown (bridge_submitted key) (λ n. d.submit_bridge n intent quote key)
    persisted ← merge_checkpoint d (submission_patch bridge submission now_seconds)
    kept ←
        or_raise not_persisted
          (both_texts persisted.bridge_transfer_id persisted.bridge_source_transaction_hash)
    at ← or_raise not_persisted persisted.bridge_submitted_at
    record_leg (leg 0 LegStatus.submitted (some (kept.1)) (some bridge.source_bridge_amount_atomic))
    pure (kept.0, some at)

  abbrev pub delivered_of : BridgeState → Option Text → Option Text → Step (Text × Text)
  delivered_of BridgeState.pending hash amount = raise bridge_delivery_pending
  delivered_of destination_funded hash amount =
      or_raise bridge_ended (both_texts (truthy hash) (truthy amount))
  delivered_of BridgeState.failed hash amount = raise bridge_ended
  delivered_of BridgeState.refunded hash amount = raise bridge_ended

  abbrev pub delivery_patch : Text × Text → Checkpoint
  delivery_patch delivered = record empty_checkpoint {
    bridge_destination_transaction_hash = some (delivered.0);
    bridge_amount_received_atomic = some (delivered.1);
  }

  -- The amount received on the destination: the checkpointed one, or what the bridge reports now.
  abbrev pub received_of : Bridge → Text → Option ℕ → ℕ → Option (Text × Text) → Step Text
  received_of bridge transfer submitted_at now_seconds (some (hash, amount)) = pure amount
  received_of bridge transfer submitted_at now_seconds none = do
    raise_if (is_overdue now_seconds bridge.maximum_bridge_wait_seconds submitted_at) bridge_timeout
    status ← perform thrown (bridge_asked transfer) (λ n. d.bridge_status n transfer)
    delivered ←
        delivered_of status.status status.destination_transaction_hash status.amount_received_atomic
    persisted ← merge_checkpoint d (delivery_patch delivered)
    kept ← or_raise not_persisted (
        both_texts (truthy persisted.bridge_destination_transaction_hash)
          (truthy persisted.bridge_amount_received_atomic))
    record_leg (leg 0 confirmed none (some (kept.1)))
    pure (kept.1)

  -- `fundDestinationByBridge`
  unfoldable pub fund_destination_by_bridge :
      PayerRegistration → Text → Checkpoint → ℕ → ℕ → Step (Unit {0})
  unfolding record_leg
  fund_destination_by_bridge payer run_id checkpoint now_seconds now = do
    bridge ← or_raise no_bridge payer.bridge
    intent ←
        lift intent_refused
          (create_cross_chain_procurement_intent d.dates (intent_input payer bridge run_id now))
    transfer ← transfer_of bridge intent run_id now_seconds checkpoint.bridge_submitted_at (
        both_texts (truthy checkpoint.bridge_transfer_id)
          (truthy checkpoint.bridge_source_transaction_hash))
    amount ← received_of bridge (transfer.0) (transfer.1) now_seconds (
        both_texts (truthy checkpoint.bridge_destination_transaction_hash)
          (truthy checkpoint.bridge_amount_received_atomic))
    received ← or_raise bad_amount (parse_atomic_amount amount)
    ceiling ← or_raise bad_amount (parse_atomic_amount payer.target_payment_amount_atomic)
    raise_if (ltb received ceiling) uncovered_funding
