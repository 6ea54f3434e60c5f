-- ===== src/Ledger/Tests.antt =====
-- A small ledger, and the theorems at it.
use ship_yard.Prelude.{
  ◌≡◌, refl, true, some, List, [], ◌∷◌, Text, codes, ok, to_lower, same_folded, text_eq,
}
use ship_yard.Prelude.Int.{◌+ℤ◌, ◌-ℤ◌}
use ship_yard.Money.{AssetId, same_asset, parse_atomic_amount, to_string}
use ship_yard.Ledger.{
  LedgerCategory, customer_payment, tool_spend, LedgerEntry, economics_of, value_of,
  filter_category, sum_values, total, int_to_string, calculate_run_economics,
  calculate_asset_position,
}
use ship_yard.Ledger.Economics.{net, calculate_run_economics-net}

abbrev usdc : AssetId
usdc = record { chain_id = 56; token_address = codes "0xAb"; decimals = 6 }

abbrev entry : LedgerCategory → Text → LedgerEntry
entry category amount = record {
  id = codes "e";
  run_id = codes "r";
  category = category;
  asset = usdc;
  atomic_amount = amount;
  accounting_value_micros = some amount;
  in_usd = true;
}

abbrev entries : List LedgerEntry
entries = entry tool_spend (codes "30") ∷ entry customer_payment (codes "20") ∷ []

accounts : Unit {0}
unfolding calculate_run_economics total sum_values filter_category value_of int_to_string to_string
    parse_atomic_amount codes calculate_asset_position same_asset same_folded to_lower text_eq ◌-ℤ◌
    ◌+ℤ◌
accounts = tt

loss : calculate_run_economics entries ≡ ok (economics_of 20 0 30 0 0 0)
unfolding accounts
loss = refl

loss_text : (economics_of 20 0 30 0 0 0).gross_contribution_micros ≡ codes "-10"
unfolding accounts
loss_text = refl

calculate_run_economics-net_example :
    (economics_of 20 0 30 0 0 0).gross_contribution_micros ≡ int_to_string (net entries)
calculate_run_economics-net_example =
    calculate_run_economics-net entries (economics_of 20 0 30 0 0 0) loss
