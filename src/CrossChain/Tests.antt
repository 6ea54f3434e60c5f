-- ===== src/CrossChain/Tests.antt =====
-- A procurement from GOAT to BNB Chain, and the theorems at it.
use ship_yard.Prelude.{◌≡◌, refl, arith, none, List, [], ◌∷◌, ◌++◌, Text, codes, ok, err}
use ship_yard.Prelude.{is_hex, is_blank, text_eq, same_folded, to_lower}
use ship_yard.Money.{parse_atomic_amount}
use ship_yard.CrossChain.Trace.{apply_all, IsCovered, apply_all-target_paid}
use ship_yard.CrossChain.Refund.{attested-refunded}
use ship_yard.Dates.{sample_dates}
use ship_yard.CrossChain.Checks.{
  create_cross_chain_procurement_intent, assert_bridge_quote_payable, assert_asset, assert_address,
  assert_non_empty, assert_hash, assert_atomic_amount, assert_future_date, read_amounts, same_asset,
  is_network, refund_refused, EvmAsset, CrossChainProcurementIntent, BridgeQuote,
}
use ship_yard.CrossChain.Defs.{
  Event, apply, transition_cross_chain_procurement, source_funds_locked, bridge_submitted,
  destination_funds_received, target_payment_created, target_payment_confirmed, refund_requested,
  refund_confirmed, fail, awaiting_source_lock, bridging, destination_funded, target_paid, attested,
  refunded,
}
use ship_yard.CrossChain.Payable.{IsPayable, assert_bridge_quote_payable-IsPayable}
use ship_yard.CrossChain.Funding.{payable-destination_funded}

abbrev address : Text
address = codes "0xaaaaaaaaaaaaaaaaaaaaaaaaaaaaaaaaaaaaaaaa"

abbrev hash : Text
hash = codes "0xbbbbbbbbbbbbbbbbbbbbbbbbbbbbbbbbbbbbbbbbbbbbbbbbbbbbbbbbbbbbbbbb"

abbrev usdc : Text → EvmAsset
usdc network = record {
  network = codes "eip155:" ++ network;
  token_address = address;
  symbol = codes "USDC";
  decimals = 6;
}

abbrev intent : CrossChainProcurementIntent
intent = record {
  run_id = codes "run";
  funding = record {
    asset = usdc (codes "2345");
    payer_address = address;
    maximum_atomic_amount = codes "900";
  };
  target = record {
    asset = usdc (codes "56");
    payer_address = address;
    pay_to_address = none;
    maximum_atomic_amount = codes "700";
  };
  expires_at = 50 ∷ [];
}

abbrev quote : BridgeQuote
quote = record {
  quote_id = codes "q";
  provider = codes "stargate";
  source_asset = usdc (codes "2345");
  destination_asset = usdc (codes "56");
  amount_in_atomic = codes "800";
  minimum_amount_out_atomic = codes "750";
  fee_atomic = codes "0";
  expires_at = 40 ∷ [];
  provider_data = (codes "pool", codes "1") ∷ [];
}

procurement : Unit {0}
unfolding create_cross_chain_procurement_intent assert_bridge_quote_payable assert_asset
    assert_address assert_non_empty assert_hash assert_atomic_amount assert_future_date read_amounts
    same_asset is_network is_hex is_blank text_eq same_folded to_lower codes parse_atomic_amount
    apply_all apply transition_cross_chain_procurement
procurement = tt

created : create_cross_chain_procurement_intent sample_dates intent ≡ ok intent
unfolding procurement
created = refl

payable : assert_bridge_quote_payable sample_dates intent quote 10 ≡ ok tt
unfolding procurement
payable = refl

abbrev events : List Event
events =
    source_funds_locked hash
    ∷ bridge_submitted (codes "t")
    ∷ destination_funds_received hash (codes "760")
    ∷ target_payment_created (codes "p")
    ∷ target_payment_confirmed hash (codes "650")
    ∷ []

paid :
    apply_all (codes "700") awaiting_source_lock events
    ≡ ok (target_paid hash (codes "t") hash (codes "760") (codes "p") hash (codes "650"))
unfolding procurement
paid = refl

apply_all-target_paid_example :
    (events ≡ events)
    × IsCovered 700 (target_paid hash (codes "t") hash (codes "760") (codes "p") hash (codes "650"))
unfolding procurement
apply_all-target_paid_example =
    apply_all-target_paid (codes "700") 700 events hash (codes "t") hash (codes "760") (codes "p")
      hash (codes "650") refl paid

attested-refunded_example :
    (transition_cross_chain_procurement
        (attested hash hash)
        (refund_requested (codes "late"))
        (codes "700")
      ≡ err refund_refused)
    × (apply_all
          (codes "700")
          (attested hash hash)
          (fail (codes "late") ∷ refund_requested (codes "late") ∷ refund_confirmed hash ∷ [])
        ≡ ok (refunded (codes "late") hash))
unfolding procurement
attested-refunded_example =
    attested-refunded (codes "700") hash hash (codes "late") hash 700 refl refl refl

assert_bridge_quote_payable-IsPayable_example : IsPayable sample_dates intent quote 10
assert_bridge_quote_payable-IsPayable_example =
    assert_bridge_quote_payable-IsPayable sample_dates intent quote 10 payable

payable-destination_funded_example :
    transition_cross_chain_procurement
      (bridging hash (codes "t"))
      (destination_funds_received hash (codes "750"))
      (codes "700")
    ≡ ok (destination_funded hash (codes "t") hash (codes "750"))
unfolding procurement
payable-destination_funded_example =
    payable-destination_funded sample_dates intent intent quote 10 750 750 (codes "750") hash
      (codes "t") hash created payable refl refl (omega arith) refl
