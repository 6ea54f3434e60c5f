-- ===== src/Money/Tests.antt =====
-- Amounts and sums of money at small inputs.
use ship_yard.Prelude.{
  ◌≡◌, ◌↔◌, refl, some, none, [], codes, ok, err, to_lower, same_folded, text_eq,
}
use ship_yard.Money.{AssetId, different_assets, parse_atomic_amount, to_string, add_money}
use ship_yard.Money.Decimal.{parse_atomic_amount_iff}

parse_tests :
    (parse_atomic_amount (codes "1200") ≡ some 1200)
    × (parse_atomic_amount (codes "0") ≡ some 0)
    × (parse_atomic_amount (codes "007") ≡ none)
    × (parse_atomic_amount (codes "-1") ≡ none)
    × (parse_atomic_amount [] ≡ none)
unfolding parse_atomic_amount codes
parse_tests = (refl, refl, refl, refl, refl)

print_test : to_string 90210 ≡ codes "90210"
unfolding to_string codes
print_test = refl

parse_atomic_amount_iff_example :
    (parse_atomic_amount (codes "42") ≡ some 42) ↔ (codes "42" ≡ to_string 42)
parse_atomic_amount_iff_example = parse_atomic_amount_iff (codes "42") 42

abbrev usdc : AssetId
usdc = record { chain_id = 56; token_address = codes "0xAb"; decimals = 6 }

add_money_tests :
    (add_money
        (record { asset = usdc; atomic_amount = codes "40" })
        (record {
          asset = record { chain_id = 56; token_address = codes "0xaB"; decimals = 6 };
          atomic_amount = codes "2";
        })
      ≡ ok (record { asset = usdc; atomic_amount = codes "42" }))
    × (add_money
          (record { asset = usdc; atomic_amount = codes "40" })
          (record {
            asset = record { chain_id = 56; token_address = codes "0xAb"; decimals = 18 };
            atomic_amount = codes "2";
          })
        ≡ err different_assets)
unfolding add_money to_string parse_atomic_amount to_lower same_folded text_eq codes
add_money_tests = (refl, refl)
