-- ===== src/Quote/Tests.antt =====
-- A quote under a policy of small amounts.
use ship_yard.Prelude.{
  ℕ, ◌+◌, ◌*◌, ◌<◌, ◌≤◌, ◌≡◌, ◌↔◌, refl, arith, true, some, none, Bool, Text, codes, ok, lt_wf,
  dec_lt,
}
use ship_yard.Money.{parse_atomic_amount, read_digits, to_string}
use ship_yard.Dates.{sample_dates}
use ship_yard.Quote.{
  MerchantCapability, QuoteRequest, QuotePricingPolicy, UnsignedQuote, Quote, validate_pricing,
  pass_through_total, fee_atomic, refundable, create_quote, quote_of,
}
use ship_yard.Quote.Fee.{fee_atomic-rate}
use ship_yard.Quote.Total.{
  Costs, sum_of, fee_of, IsAccounted, create_quote_iff, create_quote-IsAccounted,
  validate_pricing-Costs,
}

abbrev pricing : QuotePricingPolicy
pricing = record {
  fee_rate_bps = 500;
  mandatory_tool_budget_atomic = codes "40";
  dynamic_tool_budget_atomic = codes "30";
  model_infrastructure_reserve_atomic = codes "15";
  chain_storage_reserve_atomic = codes "5";
  risk_support_reserve_atomic = codes "5";
  quote_ttl_seconds = 600;
}

abbrev request : QuoteRequest
request = record {
  organization_id = codes "org";
  requester_address = codes "0xA";
  target_agent_id = codes "agent";
  target_service_id = codes "svc";
  target_version_hash = codes "0x1";
  previous_version_hash = none;
  policy_hash = codes "0x2";
  x402_endpoint = codes "https://e";
  open_api_url = codes "https://o";
  maximum_customer_budget_atomic = codes "100";
}

abbrev capability : MerchantCapability
capability = record { chain_id = 1; token_address = codes "0xT"; receiving_address = codes "0xR" }

abbrev any_request : QuoteRequest → Bool
any_request _ = true

abbrev id_commitment : UnsignedQuote → Text
id_commitment unsigned = unsigned.id

abbrev quote : Quote
quote =
    quote_of sample_dates any_request id_commitment pricing (codes "1") request capability 7 95 5 70

machine : Unit {0}
unfolding codes parse_atomic_amount read_digits to_string lt_wf dec_lt validate_pricing
    pass_through_total fee_atomic refundable create_quote
machine = tt

valid : validate_pricing pricing ≡ ok pricing
unfolding machine
valid = refl

quoted :
    create_quote sample_dates any_request id_commitment pricing (codes "1") request capability 7
    ≡ ok quote
unfolding machine
quoted = refl

abbrev costs : Costs pricing
costs = validate_pricing-Costs pricing valid

create_quote_iff_example :
    (create_quote sample_dates any_request id_commitment pricing (codes "1") request capability 7
      ≡ ok quote)
    ↔ ((any_request request ≡ true)
        × ((budget : ℕ) × (parse_atomic_amount request.maximum_customer_budget_atomic ≡ some budget)
            × (sum_of costs + fee_of costs ≤ budget))
        × (quote
            ≡ quote_of sample_dates any_request id_commitment pricing
                (codes "1")
                request
                capability
                7
                (sum_of costs)
                (fee_of costs)
                (costs.mandatory + costs.dynamic)))
create_quote_iff_example =
    create_quote_iff sample_dates any_request id_commitment pricing costs (codes "1") request
      capability 7 quote

create_quote-IsAccounted_example : IsAccounted costs quote
create_quote-IsAccounted_example =
    create_quote-IsAccounted sample_dates any_request id_commitment pricing costs (codes "1")
      request capability 7 quote quoted

fee_atomic-rate_example :
    (fee_atomic 500 95 * 10_000 ≤ (95 + fee_atomic 500 95) * 500)
    × ((95 + (fee_atomic 500 95 + 1)) * 500 < (fee_atomic 500 95 + 1) * 10_000)
fee_atomic-rate_example = fee_atomic-rate 500 95 (omega arith)
