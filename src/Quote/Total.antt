-- ===== src/Quote/Total.antt =====
-- The sums of a quote and when the engine gives one.
use ship_yard.Prelude.{
  ℕ, ◌+◌, ◌≤◌, ◌<◌, ◌≡◌, ◌↔◌, refl, sym, subst, arith, Bool, true, some, Text, ok, Option-cases,
  inl, inr,
}
use ship_yard.Money.{parse_atomic_amount, to_string}
use ship_yard.Money.Decimal.{parse_atomic_amount_iff}
use ship_yard.Dates.{Dates}
use ship_yard.Quote.{
  MerchantCapability, QuoteRequest, QuotePricingPolicy, UnsignedQuote, Quote, atomic,
  validate_pricing, pass_through_total, fee_atomic, refundable, create_quote, quote_of,
}

-- The amounts of a pricing policy that the engine accepted.
pub record Costs (pricing : QuotePricingPolicy) : Type 0 where
  pub mandatory : ℕ
  pub dynamic : ℕ
  pub model : ℕ
  pub chain : ℕ
  pub risk : ℕ
  pub mandatory_read : parse_atomic_amount pricing.mandatory_tool_budget_atomic ≡ some mandatory
  pub dynamic_read : parse_atomic_amount pricing.dynamic_tool_budget_atomic ≡ some dynamic
  pub model_read : parse_atomic_amount pricing.model_infrastructure_reserve_atomic ≡ some model
  pub chain_read : parse_atomic_amount pricing.chain_storage_reserve_atomic ≡ some chain
  pub risk_read : parse_atomic_amount pricing.risk_support_reserve_atomic ≡ some risk
  pub rate_positive : 0 < pricing.fee_rate_bps
  pub rate_bounded : pricing.fee_rate_bps < 10_000

abbrev pub sum_of : {pricing : QuotePricingPolicy} → Costs pricing → ℕ
sum_of c = c.mandatory + c.dynamic + c.model + c.chain + c.risk

abbrev pub fee_of : {pricing : QuotePricingPolicy} → Costs pricing → ℕ
fee_of {pricing} c = fee_atomic pricing.fee_rate_bps (sum_of c)

atomic_sound : (s : Text) {n : ℕ} → atomic s ≡ ok n → parse_atomic_amount s ≡ some n
atomic_sound s h = ground arith

pub validate_pricing-Costs :
    (pricing : QuotePricingPolicy) → validate_pricing pricing ≡ ok pricing → Costs pricing
unfolding validate_pricing
validate_pricing-Costs pricing h =
    elim (Option-cases (parse_atomic_amount pricing.mandatory_tool_budget_atomic)) [
      | inl bad ↦ absurd (ground arith)
      | inr (mandatory, r1) ↦
          elim (Option-cases (parse_atomic_amount pricing.dynamic_tool_budget_atomic)) [
            | inl bad ↦ absurd (ground arith)
            | inr (dynamic, r2) ↦
                elim (Option-cases
                  (parse_atomic_amount pricing.model_infrastructure_reserve_atomic)) [
                    | inl bad ↦ absurd (ground arith)
                    | inr (model, r3) ↦
                        elim (Option-cases
                          (parse_atomic_amount pricing.chain_storage_reserve_atomic)) [
                            | inl bad ↦ absurd (ground arith)
                            | inr (chain, r4) ↦
                                elim (Option-cases
                                  (parse_atomic_amount pricing.risk_support_reserve_atomic)) [
                                    | inl bad ↦ absurd (ground arith)
                                    | inr (risk, r5) ↦ record {
                                      mandatory = mandatory;
                                      dynamic = dynamic;
                                      model = model;
                                      chain = chain;
                                      risk = risk;
                                      mandatory_read = r1;
                                      dynamic_read = r2;
                                      model_read = r3;
                                      chain_read = r4;
                                      risk_read = r5;
                                      rate_positive = ground arith;
                                      rate_bounded = ground arith;
                                    }
                                  ]
                          ]
                  ]
          ]
    ]

pass_through_total_lem :
    (pricing : QuotePricingPolicy) (c : Costs pricing) → pass_through_total pricing ≡ ok (sum_of c)
unfolding pass_through_total
pass_through_total_lem pricing c =
    ground (arith, c.mandatory_read, c.dynamic_read, c.model_read, c.chain_read, c.risk_read)

refundable_lem :
    (pricing : QuotePricingPolicy) (c : Costs pricing)
    → refundable pricing ≡ ok (c.mandatory + c.dynamic)
unfolding refundable
refundable_lem pricing c = rw (c.mandatory_read, c.dynamic_read, refundable) refl

-- What the texts of a quote say in numbers.
pub record IsAccounted {pricing : QuotePricingPolicy} (c : Costs pricing) (quote : Quote)
    : Type 0 where
  pub fee :
      parse_atomic_amount quote.unsigned.line_items.base_orchestration_fee_atomic ≡ some (fee_of c)
  pub mandatory :
      parse_atomic_amount quote.unsigned.line_items.mandatory_tool_budget_atomic ≡ some c.mandatory
  pub dynamic :
      parse_atomic_amount quote.unsigned.line_items.dynamic_tool_budget_atomic ≡ some c.dynamic
  pub model :
      parse_atomic_amount quote.unsigned.line_items.model_infrastructure_reserve_atomic
      ≡ some c.model
  pub chain :
      parse_atomic_amount quote.unsigned.line_items.chain_storage_reserve_atomic ≡ some c.chain
  pub risk : parse_atomic_amount quote.unsigned.line_items.risk_support_reserve_atomic ≡ some c.risk
  pub total : parse_atomic_amount quote.unsigned.total_atomic_amount ≡ some (sum_of c + fee_of c)
  pub back :
      parse_atomic_amount quote.unsigned.refundable_tool_budget_atomic
      ≡ some (c.mandatory + c.dynamic)
  pub budget : ℕ
  pub budget_read :
      parse_atomic_amount quote.unsigned.request.maximum_customer_budget_atomic ≡ some budget
  pub affordable : sum_of c + fee_of c ≤ budget

printed : (n : ℕ) → parse_atomic_amount (to_string n) ≡ some n
printed n = (parse_atomic_amount_iff (to_string n) n).1 refl

module _ (dates : Dates) (is_request : QuoteRequest → Bool)
    (commitment : UnsignedQuote → Text) where
  -- On a validated policy the engine returns a quote exactly when the request is one by its schema,
  -- the customer's budget can be read, and the costs with the fee are within it; the quote is then
  -- the one with that fee, their sum as its total and the tool budgets as what is refundable.
  pub create_quote_iff :
      (pricing : QuotePricingPolicy) (c : Costs pricing) (id : Text) (request : QuoteRequest)
      (capability : MerchantCapability) (now : ℕ) (quote : Quote)
      → (create_quote dates is_request commitment pricing id request capability now ≡ ok quote) ↔ (
          (is_request request ≡ true)
          × ((budget : ℕ) × (parse_atomic_amount request.maximum_customer_budget_atomic
                ≡ some budget)
              × (sum_of c + fee_of c ≤ budget))
          × (quote
              ≡ quote_of dates is_request commitment pricing id request capability now
                  (sum_of c)
                  (fee_of c)
                  (c.mandatory + c.dynamic)))
  unfolding create_quote
  create_quote_iff pricing c id request capability now quote =
      rw (pass_through_total_lem pricing c, refundable_lem pricing c) (ground arith)

  -- The numbers of a quote: the line items are the policy's costs and the fee, the total is their
  -- sum and within the customer's budget, and what is refundable is the two tool budgets.
  pub create_quote-IsAccounted :
      (pricing : QuotePricingPolicy) (c : Costs pricing) (id : Text) (request : QuoteRequest)
      (capability : MerchantCapability) (now : ℕ) (quote : Quote)
      → create_quote dates is_request commitment pricing id request capability now ≡ ok quote
      → IsAccounted c quote
  create_quote-IsAccounted pricing c id request capability now quote h =
      let (valid, (budget, read, within), same) =
        (create_quote_iff pricing c id request capability now quote).0 h in
      subst (IsAccounted c) (sym same) (record {
        fee = printed (fee_of c);
        mandatory = c.mandatory_read;
        dynamic = c.dynamic_read;
        model = c.model_read;
        chain = c.chain_read;
        risk = c.risk_read;
        total = printed (sum_of c + fee_of c);
        back = printed (c.mandatory + c.dynamic);
        budget = budget;
        budget_read = read;
        affordable = within;
      })
