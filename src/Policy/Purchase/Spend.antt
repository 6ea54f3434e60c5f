-- ===== src/Policy/Purchase/Spend.antt =====
-- Purchases authorised one after another, each at the spend that the last one projected.
use ship_yard.Prelude.{
  ℕ, ◌+◌, ◌≤◌, ◌≡◌, refl, arith, true, some, List, [], ◌∷◌, Text, All, ok, ap, ◌∙◌,
}
use ship_yard.Money.{parse_atomic_amount, to_string}
use ship_yard.Money.Decimal.{parse_atomic_amount_iff}
use ship_yard.Policy.Purchase.{
  RunMandate, PurchaseIntent, PurchaseContext, PurchaseAuthorization, authorize_purchase,
  amount_or_zero,
}
use ship_yard.Policy.Purchase.Authorized.{authorize_purchase-authorized_iff}

-- The intents authorised so far, the last one first, and the spend that the last one projected.
pub data Spending (mandate : RunMandate) : List PurchaseIntent → Text → Type 0 where
  start : Spending mandate [] (to_string 0)
  buy :
      {intents : List PurchaseIntent} {spent : Text}
      → Spending mandate intents spent
      → (intent : PurchaseIntent) → (context : PurchaseContext) → (out : PurchaseAuthorization)
      → context.current_total_spend ≡ spent
      → authorize_purchase mandate intent context ≡ ok out
      → out.authorized ≡ true
      → Spending mandate (intent ∷ intents) out.projected_total_spend

abbrev pub amount_of_intent : PurchaseIntent → ℕ
amount_of_intent intent = amount_or_zero (parse_atomic_amount intent.atomic_amount)

abbrev pub sum_of_intents : List PurchaseIntent → ℕ
sum_of_intents [] = 0
sum_of_intents (i ∷ is) = sum_of_intents is + amount_of_intent i

-- The spend after a chain of authorised purchases that starts at zero is the sum of their amounts,
-- and it never exceeds the mandate's maximum; nor does any purchase exceed the single maximum.
pub Spending-maximum :
    {mandate : RunMandate} {intents : List PurchaseIntent} {spent : Text} (single total : ℕ)
    → parse_atomic_amount mandate.maximum_single_purchase ≡ some single
    → parse_atomic_amount mandate.maximum_total_spend ≡ some total
    → Spending mandate intents spent
    → (spent ≡ to_string (sum_of_intents intents))
      × (sum_of_intents intents ≤ total)
      × All (λ i. amount_of_intent i ≤ single) intents
Spending-maximum single total one all start = (refl, omega arith, tt)
Spending-maximum {mandate} single total one all
      (buy {intents} {spent} before intent context out same call granted) =
    let (sum, under, each) = Spending-maximum single total one all before in
    let (f, read, allowed, e) =
      (authorize_purchase-authorized_iff mandate intent context out).0 (call, granted) in
    let parsed : parse_atomic_amount context.current_total_spend ≡ some (sum_of_intents intents) =
      (parse_atomic_amount_iff context.current_total_spend (sum_of_intents intents)).1
        (same ∙ sum) in
    let current : f.current ≡ sum_of_intents intents = cc (parsed, read.current) in
    let amount : amount_of_intent intent ≡ f.amount = rw allowed.amount refl in
    let maximum : f.total ≡ total = cc (all, read.total) in
    let single_maximum : f.single ≡ single = cc (one, read.single) in
    (
      ap (λ o. o.projected_total_spend) e ∙ ap to_string (omega (arith, current, amount)),
      omega (arith, current, amount, maximum, allowed.under_total),
      (omega (arith, amount, single_maximum, allowed.under_single), each),
    )
