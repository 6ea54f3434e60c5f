-- ===== src/Quote.antt =====
-- packages/quote-engine/src/quote-engine.ts: what a run is quoted.
pub mod Fee
pub mod Total
mod Tests
use ship_yard.Prelude.{
  ℕ, ◌+◌, ◌-◌, ◌*◌, ◌/◌, Bool, not, ◌||◌, Option, none, some, Text, codes, ◌++◌, ltb, leb, Result,
  ok, err, ◌>>=◌, ◌>>◌, throw_if,
}
use ship_yard.Money.{parse_atomic_amount, to_string}
use ship_yard.Dates.{Dates}

-- The fields of the capability that the repository's code reads behind the quote.
pub record MerchantCapability : Type 0 where
  pub chain_id : ℕ
  pub token_address : Text
  pub receiving_address : Text

pub record QuoteRequest : Type 0 where
  pub organization_id : Text
  pub requester_address : Text
  pub target_agent_id : Text
  pub target_service_id : Text
  pub target_version_hash : Text
  pub previous_version_hash : Option Text
  pub policy_hash : Text
  pub x402_endpoint : Text
  pub open_api_url : Text
  pub maximum_customer_budget_atomic : Text

-- `pricingStatus` has one value and is left out.
pub record QuotePricingPolicy : Type 0 where
  pub fee_rate_bps : ℕ
  pub mandatory_tool_budget_atomic : Text
  pub dynamic_tool_budget_atomic : Text
  pub model_infrastructure_reserve_atomic : Text
  pub chain_storage_reserve_atomic : Text
  pub risk_support_reserve_atomic : Text
  pub quote_ttl_seconds : ℕ

pub record LineItems : Type 0 where
  pub base_orchestration_fee_atomic : Text
  pub mandatory_tool_budget_atomic : Text
  pub dynamic_tool_budget_atomic : Text
  pub model_infrastructure_reserve_atomic : Text
  pub chain_storage_reserve_atomic : Text
  pub risk_support_reserve_atomic : Text

-- The quote before its commitment.
pub record UnsignedQuote : Type 0 where
  pub id : Text
  pub request : QuoteRequest
  pub capability_snapshot : MerchantCapability
  pub line_items : LineItems
  pub total_atomic_amount : Text
  pub refundable_tool_budget_atomic : Text
  pub created_at : Text
  pub expires_at : Text

pub record Quote : Type 0 where
  pub unsigned : UnsignedQuote
  pub quote_commitment : Text

pub data QuoteError : Type 0 where
  quote_budget_exceeded bad_amount invalid_request bad_fee_rate bad_ttl : QuoteError

abbrev pub or_bad_amount : Option ℕ → Result QuoteError ℕ
or_bad_amount none = err bad_amount
or_bad_amount (some n) = ok n

-- `parseAtomicAmount` as a call that may throw.
abbrev pub atomic : Text → Result QuoteError ℕ
atomic s = or_bad_amount (parse_atomic_amount s)

-- `validatePricing`
unfoldable pub validate_pricing : QuotePricingPolicy → Result QuoteError QuotePricingPolicy
validate_pricing pricing = do
  _ ← atomic pricing.mandatory_tool_budget_atomic
  _ ← atomic pricing.dynamic_tool_budget_atomic
  _ ← atomic pricing.model_infrastructure_reserve_atomic
  _ ← atomic pricing.chain_storage_reserve_atomic
  _ ← atomic pricing.risk_support_reserve_atomic
  throw_if (leb pricing.fee_rate_bps 0 || leb 10_000 pricing.fee_rate_bps) bad_fee_rate
  throw_if (ltb pricing.quote_ttl_seconds 60 || ltb 86_400 pricing.quote_ttl_seconds) bad_ttl
  ok pricing

-- `Object.values(passThroughCosts).reduce((sum, value) => sum + parseAtomicAmount(value), 0n)`
unfoldable pub pass_through_total : QuotePricingPolicy → Result QuoteError ℕ
pass_through_total pricing = do
  mandatory ← atomic pricing.mandatory_tool_budget_atomic
  dynamic ← atomic pricing.dynamic_tool_budget_atomic
  model ← atomic pricing.model_infrastructure_reserve_atomic
  chain ← atomic pricing.chain_storage_reserve_atomic
  risk ← atomic pricing.risk_support_reserve_atomic
  ok (mandatory + dynamic + model + chain + risk)

-- The fee that makes `fee / (fee + passThroughTotal)` the rate; the subtraction cannot go below zero
-- on a validated policy.
unfoldable pub fee_atomic : ℕ → ℕ → ℕ
fee_atomic rate costs = (costs * rate) / (10_000 - rate)

unfoldable pub refundable : QuotePricingPolicy → Result QuoteError ℕ
refundable pricing = do
  mandatory ← atomic pricing.mandatory_tool_budget_atomic
  dynamic ← atomic pricing.dynamic_tool_budget_atomic
  ok (mandatory + dynamic)

-- `is_request` is zod's verdict on `quoteRequestSchema`; `commitment` the hash of the canonical JSON
-- of a quote; `id_factory` what the id factory returned.
module _ (dates : Dates) (is_request : QuoteRequest → Bool)
    (commitment : UnsignedQuote → Text) where
  -- The quote that `createQuote` builds when nothing threw.
  abbrev pub unsigned_quote :
      QuotePricingPolicy → Text → QuoteRequest → MerchantCapability → ℕ → ℕ → ℕ → ℕ → UnsignedQuote
  unsigned_quote pricing fresh_id request capability now costs fee back = record {
    id = codes "quote_" ++ fresh_id;
    request = request;
    capability_snapshot = capability;
    line_items = record {
      base_orchestration_fee_atomic = to_string fee;
      mandatory_tool_budget_atomic = pricing.mandatory_tool_budget_atomic;
      dynamic_tool_budget_atomic = pricing.dynamic_tool_budget_atomic;
      model_infrastructure_reserve_atomic = pricing.model_infrastructure_reserve_atomic;
      chain_storage_reserve_atomic = pricing.chain_storage_reserve_atomic;
      risk_support_reserve_atomic = pricing.risk_support_reserve_atomic;
    };
    total_atomic_amount = to_string (costs + fee);
    refundable_tool_budget_atomic = to_string back;
    created_at = dates.to_iso now;
    expires_at = dates.to_iso (now + pricing.quote_ttl_seconds * 1000);
  }

  abbrev pub quote_of :
      QuotePricingPolicy → Text → QuoteRequest → MerchantCapability → ℕ → ℕ → ℕ → ℕ → Quote
  quote_of pricing fresh_id request capability now costs fee back =
      let unsigned = unsigned_quote pricing fresh_id request capability now costs fee back in
      record { unsigned = unsigned; quote_commitment = commitment unsigned }

  -- `createQuote`, by an engine whose constructor validated the pricing.
  unfoldable pub create_quote :
      QuotePricingPolicy → Text → QuoteRequest → MerchantCapability → ℕ → Result QuoteError Quote
  create_quote pricing fresh_id request capability now = do
    throw_if (not (is_request request)) invalid_request
    costs ← pass_through_total pricing
    let fee = fee_atomic pricing.fee_rate_bps costs
    budget ← atomic request.maximum_customer_budget_atomic
    throw_if (ltb budget (costs + fee)) quote_budget_exceeded
    back ← refundable pricing
    ok (quote_of pricing fresh_id request capability now costs fee back)
