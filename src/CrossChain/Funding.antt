-- ===== src/CrossChain/Funding.antt =====
-- A bridge that honours a payable quote completes the funding of a created intent.
use ship_yard.Prelude.{
  ℕ, ◌≤◌, ◌≡◌, refl, sym, ◌∙◌, arith, true, false, Text, is_hex, ltb, ok, Ensures, Ensures->>=,
  throw_if-ok, Ensures_ok, ok-injective, text_eq, throw_if,
}
use ship_yard.Dates.{Dates}
use ship_yard.CrossChain.Checks.{
  same_networks, assert_future_date, assert_optional_address, assert_address,
  create_cross_chain_procurement_intent, CrossChainProcurementIntent, BridgeQuote,
  assert_atomic_amount, assert_bridge_quote_payable, assert_hash, assert_asset, assert_non_empty,
}
use ship_yard.CrossChain.Defs.{
  bridging, destination_funded, destination_funds_received, apply,
  transition_cross_chain_procurement,
}
use ship_yard.CrossChain.Trace.{amount_sound}
use ship_yard.CrossChain.Payable.{IsPayable, assert_bridge_quote_payable-IsPayable}

-- What a created intent promises.
pub record IsIntent (input intent : CrossChainProcurementIntent) : Type 0 where
  pub same : intent ≡ input
  pub funding_ceiling : ℕ
  pub target_ceiling : ℕ
  pub funding : assert_atomic_amount input.funding.maximum_atomic_amount false ≡ ok funding_ceiling
  pub target : assert_atomic_amount input.target.maximum_atomic_amount false ≡ ok target_ceiling
  pub crosses : text_eq input.funding.asset.network input.target.asset.network ≡ false

create_cross_chain_procurement_intent-IsIntent :
    (dates : Dates) (input : CrossChainProcurementIntent)
    → Ensures (IsIntent input) (create_cross_chain_procurement_intent dates input)
unfolding create_cross_chain_procurement_intent
create_cross_chain_procurement_intent-IsIntent dates input =
    let P : CrossChainProcurementIntent → Type 0 = IsIntent input in
    let networks = text_eq input.funding.asset.network input.target.asset.network in
    Ensures->>= P (assert_non_empty input.run_id) _ λ _ _.
      Ensures->>= P (assert_asset input.funding.asset) _ λ _ _.
        Ensures->>= P (assert_asset input.target.asset) _ λ _ _.
          Ensures->>= P (assert_address input.funding.payer_address) _ λ _ _.
            Ensures->>= P (assert_address input.target.payer_address) _ λ _ _.
              Ensures->>= P (assert_optional_address input.target.pay_to_address) _ λ _ _.
                Ensures->>= P (assert_atomic_amount input.funding.maximum_atomic_amount false) _
                  λ funding_ceiling funding.
                    Ensures->>= P (assert_atomic_amount input.target.maximum_atomic_amount false) _
                      λ target_ceiling target.
                        Ensures->>= P (assert_future_date dates input.expires_at) _ λ _ _.
                          Ensures->>= P (throw_if networks same_networks) _ λ _ apart. record {
                            same = refl;
                            funding_ceiling = funding_ceiling;
                            target_ceiling = target_ceiling;
                            funding = funding;
                            target = target;
                            crosses = throw_if-ok networks same_networks apart;
                          }

receipt-accepted :
    (target_maximum received source transfer hash : Text) (ceiling amount : ℕ)
    → assert_atomic_amount target_maximum false ≡ ok ceiling
    → assert_atomic_amount received false ≡ ok amount
    → ceiling ≤ amount
    → is_hex 64 hash ≡ true
    → transition_cross_chain_procurement
        (bridging source transfer)
        (destination_funds_received hash received)
        target_maximum
      ≡ ok (destination_funded source transfer hash received)
unfolding transition_cross_chain_procurement apply assert_hash
receipt-accepted target_maximum received source transfer hash ceiling amount read got covers
      hashed =
    let enough : ltb amount ceiling ≡ false = ground arith in simp (read, got, hashed, enough)

same_value :
    (value : Text) (a b : ℕ)
    → assert_atomic_amount value true ≡ ok a
    → assert_atomic_amount value false ≡ ok b
    → a ≡ b
same_value value a b h k = cc (amount_sound value true h, amount_sound value false k)

module _ (dates : Dates) (input intent : CrossChainProcurementIntent) (quote : BridgeQuote)
    (now minimum amount : ℕ) (received source transfer hash : Text) where
  funded_of_IsPayable :
      IsIntent input intent
      → IsPayable dates intent quote now
      → assert_atomic_amount quote.minimum_amount_out_atomic false ≡ ok minimum
      → assert_atomic_amount received false ≡ ok amount
      → minimum ≤ amount
      → is_hex 64 hash ≡ true
      → transition_cross_chain_procurement
          (bridging source transfer)
          (destination_funds_received hash received)
          intent.target.maximum_atomic_amount
        ≡ ok (destination_funded source transfer hash received)
  funded_of_IsPayable i p least got enough hashed =
      let limit = intent.target.maximum_atomic_amount in
      let read : assert_atomic_amount limit false ≡ ok i.target_ceiling = rw i.same i.target in
      let ceiling = same_value limit p.target_ceiling i.target_ceiling p.target read in
      let least_out : p.minimum_out ≡ minimum = ok-injective (sym p.output ∙ least) in
      receipt-accepted limit received source transfer hash i.target_ceiling amount read got
        (omega (arith, p.covers, ceiling, least_out)) hashed

  -- For a created intent and a payable quote, a bridge that delivers at least the quoted minimum
  -- completes the funding: its receipt, with a well-formed hash, is accepted while bridging.
  pub payable-destination_funded :
      create_cross_chain_procurement_intent dates input ≡ ok intent
      → assert_bridge_quote_payable dates intent quote now ≡ ok tt
      → assert_atomic_amount quote.minimum_amount_out_atomic false ≡ ok minimum
      → assert_atomic_amount received false ≡ ok amount
      → minimum ≤ amount
      → is_hex 64 hash ≡ true
      → transition_cross_chain_procurement
          (bridging source transfer)
          (destination_funds_received hash received)
          intent.target.maximum_atomic_amount
        ≡ ok (destination_funded source transfer hash received)
  payable-destination_funded made payable least got enough hashed =
      funded_of_IsPayable
        (Ensures_ok (IsIntent input) (create_cross_chain_procurement_intent dates input)
          (create_cross_chain_procurement_intent-IsIntent dates input) made)
        (assert_bridge_quote_payable-IsPayable dates intent quote now payable) least got enough
        hashed
