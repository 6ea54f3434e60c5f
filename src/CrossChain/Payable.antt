-- ===== src/CrossChain/Payable.antt =====
-- What a payable bridge quote guarantees, and that a bridge which honours it completes the funding.
use ship_yard.Prelude.{
  ℕ, ◌≤◌, ◌<◌, ◌≡◌, refl, arith, Bool, true, false, not, Option, none, some, ltb, ok, Ensures,
  Ensures->>=, throw_if-ok, Ensures-of, Ensures_ok, le_of_ltb-false, throw_if,
}
use ship_yard.Dates.{Dates, number_before}
use ship_yard.CrossChain.Checks.{
  CrossChainProcurementIntent, BridgeQuote, same_asset, is_empty, no_provider_data, source_mismatch,
  destination_mismatch, over_funding_ceiling, under_target_ceiling, assert_atomic_amount,
  assert_bridge_quote_payable, read_amounts, check_expiry, assert_asset, assert_non_empty,
}

-- A payable quote, in words: the amounts are read, the input fits the customer's ceiling, the least
-- output covers the target's, the assets are those of the two rails, and the quote has not expired.
pub record IsPayable (dates : Dates) (intent : CrossChainProcurementIntent) (quote : BridgeQuote)
    (now : ℕ) : Type 0 where
  pub amount_in : ℕ
  pub minimum_out : ℕ
  pub funding_ceiling : ℕ
  pub target_ceiling : ℕ
  pub expiry : ℕ
  pub input : assert_atomic_amount quote.amount_in_atomic false ≡ ok amount_in
  pub output : assert_atomic_amount quote.minimum_amount_out_atomic false ≡ ok minimum_out
  pub funding : assert_atomic_amount intent.funding.maximum_atomic_amount true ≡ ok funding_ceiling
  pub target : assert_atomic_amount intent.target.maximum_atomic_amount true ≡ ok target_ceiling
  pub source_asset : same_asset intent.funding.asset quote.source_asset ≡ true
  pub destination_asset : same_asset intent.target.asset quote.destination_asset ≡ true
  pub affordable : amount_in ≤ funding_ceiling
  pub covers : target_ceiling ≤ minimum_out
  pub expires : dates.parse quote.expires_at ≡ some expiry
  pub live : now < expiry
  pub within : number_before (dates.parse intent.expires_at) (dates.parse quote.expires_at) ≡ false

not-false : (b : Bool) → not b ≡ false → b ≡ true
not-false true h = refl
not-false false h = cc

check_expiry-live :
    (quote_expiry intent_expiry : Option ℕ) (now : ℕ) {u : Unit {0}}
    → check_expiry quote_expiry intent_expiry now ≡ ok u
    → (t : ℕ) × (quote_expiry ≡ some t)
      × (now < t)
      × (number_before intent_expiry quote_expiry ≡ false)
check_expiry-live none intent_expiry now h = cc
check_expiry-live (some t) intent_expiry now h = (t, refl, ground arith, ground arith)

read_amounts_sound :
    (quote : BridgeQuote) (amount_in minimum_out : ℕ)
    → read_amounts quote ≡ ok (amount_in, minimum_out)
    → (assert_atomic_amount quote.amount_in_atomic false ≡ ok amount_in)
      × (assert_atomic_amount quote.minimum_amount_out_atomic false ≡ ok minimum_out)
unfolding read_amounts
read_amounts_sound quote amount_in minimum_out h = (ground arith, ground arith)

assert_bridge_quote_payable-Ensures :
    (dates : Dates) (intent : CrossChainProcurementIntent) (quote : BridgeQuote) (now : ℕ)
    → Ensures
        (λ _. IsPayable dates intent quote now)
        (assert_bridge_quote_payable dates intent quote now)
unfolding assert_bridge_quote_payable
assert_bridge_quote_payable-Ensures dates intent quote now =
    let P : Unit {0} → Type 0 = λ _. IsPayable dates intent quote now in
    Ensures->>= P (assert_asset quote.source_asset) _ λ _ _.
      Ensures->>= P (assert_asset quote.destination_asset) _ λ _ _.
        Ensures->>= P (read_amounts quote) _ λ amounts read.
          Ensures->>= P (assert_non_empty quote.quote_id) _ λ _ _.
            Ensures->>= P (assert_non_empty quote.provider) _ λ _ _.
              Ensures->>= P (throw_if (is_empty quote.provider_data) no_provider_data) _ λ _ _.
                Ensures->>= P
                  (throw_if (not (same_asset intent.funding.asset quote.source_asset))
                    source_mismatch)
                  _
                  λ _ source.
                    Ensures->>= P
                      (throw_if (not (same_asset intent.target.asset quote.destination_asset))
                        destination_mismatch)
                      _
                      λ _ destination.
                        Ensures->>= P
                          (assert_atomic_amount intent.funding.maximum_atomic_amount true) _
                          λ funding_ceiling funding.
                            Ensures->>= P
                              (throw_if (ltb funding_ceiling amounts.0) over_funding_ceiling) _
                              λ _ affordable.
                                Ensures->>= P
                                  (assert_atomic_amount intent.target.maximum_atomic_amount true) _
                                  λ target_ceiling target.
                                    Ensures->>= P
                                      (throw_if (ltb amounts.1 target_ceiling) under_target_ceiling)
                                      _
                                      λ _ covers.
                                        Ensures-of
                                          (check_expiry (dates.parse quote.expires_at)
                                            (dates.parse intent.expires_at) now)
                                          λ u timed.
                                            let (expiry, expires, live, within) =
                                              check_expiry-live (dates.parse quote.expires_at)
                                                (dates.parse intent.expires_at) now timed in
                                            let (input, output) =
                                              read_amounts_sound quote amounts.0 amounts.1 read in
                                            record {
                                              amount_in = amounts.0;
                                              minimum_out = amounts.1;
                                              funding_ceiling = funding_ceiling;
                                              target_ceiling = target_ceiling;
                                              expiry = expiry;
                                              input = input;
                                              output = output;
                                              funding = funding;
                                              target = target;
                                              source_asset =
                                                  not-false _
                                                    (throw_if-ok _ source_mismatch source);
                                              destination_asset =
                                                  not-false _ (
                                                    throw_if-ok _ destination_mismatch destination);
                                              affordable =
                                                  le_of_ltb-false funding_ceiling amounts.0
                                                    (throw_if-ok _ over_funding_ceiling affordable);
                                              covers =
                                                  le_of_ltb-false amounts.1 target_ceiling
                                                    (throw_if-ok _ under_target_ceiling covers);
                                              expires = expires;
                                              live = live;
                                              within = within;
                                            }

-- A quote that passes `assertBridgeQuotePayable` is payable: its amounts are read, the input is
-- within the customer's ceiling, the least output covers the target's ceiling, source and
-- destination are the assets of the two rails, and it expires after now and not after the intent.
pub assert_bridge_quote_payable-IsPayable :
    (dates : Dates) (intent : CrossChainProcurementIntent) (quote : BridgeQuote) (now : ℕ)
    → assert_bridge_quote_payable dates intent quote now ≡ ok tt
    → IsPayable dates intent quote now
assert_bridge_quote_payable-IsPayable dates intent quote now h =
    Ensures_ok (λ _. IsPayable dates intent quote now)
      (assert_bridge_quote_payable dates intent quote now)
      (assert_bridge_quote_payable-Ensures dates intent quote now) h
