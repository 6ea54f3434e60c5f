-- ===== src/Ledger.antt =====
-- packages/run-domain/src/economic-ledger.ts: what a run earned and cost.
pub mod Economics
pub mod Position
mod Tests
use ship_yard.Prelude.{
  ℕ, suc, ◌+◌, Bool, true, false, ◌&&◌, Option, none, some, List, [], ◌∷◌, ◌++◌, Text, String,
  codes, ◌==◌, if◌then◌else◌, Result, ok, err, ◌>>=◌,
}
use ship_yard.Prelude.Int.{ℤ, pos, negsuc, ◌+ℤ◌, ◌-ℤ◌}
use ship_yard.Money.{AssetId, same_asset, parse_atomic_amount, to_string}

pub data LedgerCategory : Type 0 where
  customer_payment customer_refund tool_spend model_cost chain_cost storage_cost : LedgerCategory

abbrev pub category_index : LedgerCategory → ℕ
category_index customer_payment = 0
category_index customer_refund = 1
category_index tool_spend = 2
category_index model_cost = 3
category_index chain_cost = 4
category_index storage_cost = 5

-- `===` on the categories
abbrev pub same_category : LedgerCategory → LedgerCategory → Bool
same_category a b = category_index a == category_index b

pub record LedgerEntry : Type 0 where
  pub id : Text
  pub run_id : Text
  pub category : LedgerCategory
  pub asset : AssetId
  pub atomic_amount : Text
  pub accounting_value_micros : Option Text
  -- `accountingCurrency === 'USD'`; the field has no other value
  pub in_usd : Bool

pub data LedgerError : Type 0 where
  lacks_valuation : Text → LedgerError
  not_an_amount : LedgerError

abbrev pub read_amount : Text → Result LedgerError ℕ
read_amount s = elim (parse_atomic_amount s) [ none ↦ err not_an_amount | some n ↦ ok n ]

abbrev pub valued : Bool → Option Text → Text → Result LedgerError ℕ
valued true (some micros) id = read_amount micros
valued true none id = err (lacks_valuation id)
valued false micros id = err (lacks_valuation id)

-- The valuation of an entry, or the throw of the `reduce`.
unfoldable pub value_of : LedgerEntry → Result LedgerError ℕ
value_of entry = valued entry.in_usd entry.accounting_value_micros entry.id

unfoldable pub filter_category : LedgerCategory → List LedgerEntry → List LedgerEntry
filter_category category [] = []
filter_category category (e ∷ es) =
    if same_category e.category category
    then e ∷ filter_category category es
    else filter_category category es

unfoldable pub sum_values : ℕ → List LedgerEntry → Result LedgerError ℕ
sum_values sum [] = ok sum
sum_values sum (e ∷ es) = do value ← value_of e; sum_values (sum + value) es

-- `total(category)`
unfoldable pub total : LedgerCategory → List LedgerEntry → Result LedgerError ℕ
total category entries = sum_values 0 (filter_category category entries)

-- `toString()` of a signed `bigint`.
unfoldable pub int_to_string : ℤ → Text
int_to_string (pos n) = to_string n
int_to_string (negsuc n) = b'-' ∷ to_string (suc n)

pub record RunEconomics : Type 0 where
  pub customer_revenue_micros : Text
  pub customer_refund_micros : Text
  pub tool_cost_micros : Text
  pub model_cost_micros : Text
  pub chain_cost_micros : Text
  pub storage_cost_micros : Text
  pub gross_contribution_micros : Text

-- The record that `calculateRunEconomics` returns, from its six totals.
abbrev pub economics_of : ℕ → ℕ → ℕ → ℕ → ℕ → ℕ → RunEconomics
economics_of customer_revenue refund tool_cost model chain storage = record {
  customer_revenue_micros = to_string customer_revenue;
  customer_refund_micros = to_string refund;
  tool_cost_micros = to_string tool_cost;
  model_cost_micros = to_string model;
  chain_cost_micros = to_string chain;
  storage_cost_micros = to_string storage;
  gross_contribution_micros = int_to_string (
      pos customer_revenue -ℤ pos refund -ℤ pos tool_cost -ℤ pos model -ℤ pos chain -ℤ pos storage);
}

unfoldable pub calculate_run_economics : List LedgerEntry → Result LedgerError RunEconomics
calculate_run_economics entries = do
  customer_revenue ← total customer_payment entries
  refund ← total customer_refund entries
  tool_cost ← total tool_spend entries
  model ← total model_cost entries
  chain ← total chain_cost entries
  storage ← total storage_cost entries
  ok (economics_of customer_revenue refund tool_cost model chain storage)

-- The sign of an entry in `calculateAssetPosition`.
abbrev pub moved : LedgerCategory → ℤ → ℕ → ℤ
moved customer_payment position amount = position +ℤ pos amount
moved _ position amount = position -ℤ pos amount

position_from : ℤ → AssetId → List LedgerEntry → Result LedgerError ℤ
position_from position asset [] = ok position
position_from position asset (e ∷ es) = elim (same_asset e.asset asset) [
  | true ↦ do
    amount ← read_amount e.atomic_amount
    position_from (moved e.category position amount) asset es
  | false ↦ position_from position asset es
]

-- `calculateAssetPosition`: an entry of another asset is skipped.
unfoldable pub calculate_asset_position : List LedgerEntry → AssetId → Result LedgerError ℤ
unfolding position_from
calculate_asset_position entries asset = position_from (pos 0) asset entries
