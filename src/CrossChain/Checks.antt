-- ===== src/CrossChain/Checks.antt =====
-- packages/x402-payments/src/cross-chain-procurement.ts: rails, quotes and the checks before a
-- bridge is signed for. The texts of the messages, and the field names in them, are left out.
use ship_yard.Prelude.{
  ℕ, Bool, true, false, not, ◌&&◌, Option, none, some, List, [], ◌∷◌, Text, text_eq, same_folded,
  codes, is_hex, is_blank, ltb, leb, ◌==◌, if◌then◌else◌, Result, ok, err, ◌>>=◌, ◌>>◌, throw_if,
}
use ship_yard.Dates.{Dates, is_date, number_before}
use ship_yard.Money.{parse_atomic_amount, is_digit}

pub data ProcurementError : Type 0 where
  bad_network bad_address bad_hash bad_decimals bad_amount bad_date empty_text : ProcurementError
  same_networks no_provider_data source_mismatch destination_mismatch : ProcurementError
  over_funding_ceiling under_target_ceiling quote_expired quote_outlives_intent : ProcurementError
  refund_refused invalid_transition over_target_ceiling : ProcurementError

pub record EvmAsset : Type 0 where
  pub network : Text
  pub token_address : Text
  pub symbol : Text
  pub decimals : ℕ

pub record CustomerFundingRail : Type 0 where
  pub asset : EvmAsset
  pub payer_address : Text
  pub maximum_atomic_amount : Text

pub record TargetPaymentRail : Type 0 where
  pub asset : EvmAsset
  pub payer_address : Text
  pub pay_to_address : Option Text
  pub maximum_atomic_amount : Text

pub record CrossChainProcurementIntent : Type 0 where
  pub run_id : Text
  pub funding : CustomerFundingRail
  pub target : TargetPaymentRail
  pub expires_at : Text

pub record BridgeQuote : Type 0 where
  pub quote_id : Text
  pub provider : Text
  pub source_asset : EvmAsset
  pub destination_asset : EvmAsset
  pub amount_in_atomic : Text
  pub minimum_amount_out_atomic : Text
  pub fee_atomic : Text
  pub expires_at : Text
  pub provider_data : List (Text × Text)

abbrev Check : Type 0
Check = Result ProcurementError (Unit {0})

-- `sameAsset`
unfoldable pub same_asset : EvmAsset → EvmAsset → Bool
same_asset left right =
    text_eq left.network right.network
    && same_folded left.token_address right.token_address
    && left.decimals == right.decimals

abbrev positive_digits : Text → Bool
positive_digits [] = false
positive_digits (c ∷ s) = leb b'1' c && leb c b'9' && all_digits s
  where
    all_digits : Text → Bool
    all_digits [] = true
    all_digits (d ∷ t) = is_digit d && all_digits t

abbrev behind : Text → Text → Option Text
behind [] s = some s
behind (p ∷ ps) [] = none
behind (p ∷ ps) (c ∷ s) = if p == c then behind ps s else none

-- /^eip155:[1-9]\d*$/
unfoldable pub is_network : Text → Bool
unfolding codes
is_network s = elim (behind (codes "eip155:") s) [ none ↦ false | some t ↦ positive_digits t ]

unfoldable pub assert_address : Text → Check
assert_address value = throw_if (not (is_hex 40 value)) bad_address

unfoldable pub assert_hash : Text → Check
assert_hash value = throw_if (not (is_hex 64 value)) bad_hash

unfoldable pub assert_non_empty : Text → Check
assert_non_empty value = throw_if (is_blank value) empty_text

-- `assertAsset`; the decimals are an integer of at least 0 by their type here.
unfoldable pub assert_asset : EvmAsset → Check
assert_asset asset = do
  throw_if (not (is_network asset.network)) bad_network
  assert_address asset.token_address
  assert_non_empty asset.symbol
  throw_if (ltb 36 asset.decimals) bad_decimals

abbrev pub checked_amount : Option ℕ → Bool → Result ProcurementError ℕ
checked_amount none allow_zero = err bad_amount
checked_amount (some n) allow_zero = if not allow_zero && n == 0 then err bad_amount else ok n

-- `assertAtomicAmount`, with the value that `BigInt` gives the text afterwards.
unfoldable pub assert_atomic_amount : Text → Bool → Result ProcurementError ℕ
assert_atomic_amount value allow_zero = checked_amount (parse_atomic_amount value) allow_zero

abbrev pub assert_optional_address : Option Text → Check
assert_optional_address none = ok tt
assert_optional_address (some value) = assert_address value

-- The expiry tests of `assertBridgeQuotePayable`, on the results of `Date.parse`.
abbrev pub check_expiry : Option ℕ → Option ℕ → ℕ → Check
check_expiry none intent_expiry now = err quote_expired
check_expiry (some quote_expiry) intent_expiry now = do
  throw_if (leb quote_expiry now) quote_expired
  throw_if (number_before intent_expiry (some quote_expiry)) quote_outlives_intent

-- The amounts of a quote, once they are read.
unfoldable pub read_amounts : BridgeQuote → Result ProcurementError (ℕ × ℕ)
read_amounts quote = do
  amount_in ← assert_atomic_amount quote.amount_in_atomic false
  minimum_out ← assert_atomic_amount quote.minimum_amount_out_atomic false
  _ ← assert_atomic_amount quote.fee_atomic true
  ok (amount_in, minimum_out)

abbrev pub is_empty : List (Text × Text) → Bool
is_empty [] = true
is_empty (_ ∷ _) = false

module _ (dates : Dates) where
  -- `assertFutureDate`: it asks only that the date parses.
  unfoldable pub assert_future_date : Text → Check
  assert_future_date value = throw_if (not (is_date dates value)) bad_date

  -- `createCrossChainProcurementIntent`
  unfoldable pub create_cross_chain_procurement_intent :
      CrossChainProcurementIntent → Result ProcurementError CrossChainProcurementIntent
  create_cross_chain_procurement_intent input = do
    assert_non_empty input.run_id
    assert_asset input.funding.asset
    assert_asset input.target.asset
    assert_address input.funding.payer_address
    assert_address input.target.payer_address
    assert_optional_address input.target.pay_to_address
    _ ← assert_atomic_amount input.funding.maximum_atomic_amount false
    _ ← assert_atomic_amount input.target.maximum_atomic_amount false
    assert_future_date input.expires_at
    throw_if (text_eq input.funding.asset.network input.target.asset.network) same_networks
    ok input

  -- `assertBridgeQuotePayable`. `BigInt` reads the ceilings as canonical decimals here: an intent's
  -- amounts were checked to be that when it was created.
  unfoldable pub assert_bridge_quote_payable : CrossChainProcurementIntent → BridgeQuote → ℕ → Check
  assert_bridge_quote_payable intent quote now = do
    assert_asset quote.source_asset
    assert_asset quote.destination_asset
    (amount_in, minimum_out) ← read_amounts quote
    assert_non_empty quote.quote_id
    assert_non_empty quote.provider
    throw_if (is_empty quote.provider_data) no_provider_data
    throw_if (not (same_asset intent.funding.asset quote.source_asset)) source_mismatch
    throw_if (not (same_asset intent.target.asset quote.destination_asset)) destination_mismatch
    funding_ceiling ← assert_atomic_amount intent.funding.maximum_atomic_amount true
    throw_if (ltb funding_ceiling amount_in) over_funding_ceiling
    target_ceiling ← assert_atomic_amount intent.target.maximum_atomic_amount true
    throw_if (ltb minimum_out target_ceiling) under_target_ceiling
    check_expiry (dates.parse quote.expires_at) (dates.parse intent.expires_at) now
