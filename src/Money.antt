-- ===== src/Money.antt =====
-- packages/run-domain/src/money.ts: atomic amounts as canonical decimal strings, assets, sums.
pub mod Decimal
mod Tests
use ship_yard.Prelude.{
  ℕ, ◌+◌, ◌-◌, ◌*◌, ◌/◌, ◌%◌, ◌<◌, Acc, lt_wf, dec_lt, dite, arith, Bool, ◌&&◌, ◌||◌, not, Option,
  none, some, [], ◌∷◌, Text, same_folded, leb, ◌==◌, if◌then◌else◌, Result, ok, err, ◌>>=◌, ◌>>◌,
  throw_if,
}

abbrev pub is_digit : ℕ → Bool
is_digit c = leb b'0' c && leb c b'9'

-- `\d*$`, and the value that `BigInt` gives the digits behind `n`.
unfoldable pub read_digits : ℕ → Text → Option ℕ
read_digits n [] = some n
read_digits n (c ∷ s) = if is_digit c then read_digits (n * 10 + (c - b'0')) s else none

-- The tail behind a leading `0`: the pattern allows none.
abbrev pub only_zero : Text → Option ℕ
only_zero [] = some 0
only_zero (_ ∷ _) = none

-- `parseAtomicAmount`: /^(0|[1-9]\d*)$/, then `BigInt`; `none` where it throws.
unfoldable pub parse_atomic_amount : Text → Option ℕ
unfolding read_digits
parse_atomic_amount [] = none
parse_atomic_amount (c ∷ s) =
    if c == b'0' then only_zero s else if is_digit c then read_digits (c - b'0') s else none

pub tenth-lt : (n : ℕ) → ¬ (n < 10) → n / 10 < n
tenth-lt n h = omega arith

-- The decimal digits of `n` before `out`.
emit_digits : (n : ℕ) → Acc ◌<◌ n → Text → Text
emit_digits n (Acc.intro _ smaller) out =
    dite (dec_lt n 10) (λ _. (b'0' + n) ∷ out)
      (λ h. emit_digits (n / 10) (smaller (n / 10) (tenth-lt n h)) ((b'0' + n % 10) ∷ out))

-- `toString()` of an unsigned `bigint`.
unfoldable pub to_string : ℕ → Text
unfolding emit_digits lt_wf dec_lt
to_string n = emit_digits n (lt_wf.apply n) []

pub record AssetId : Type 0 where
  pub chain_id : ℕ
  pub token_address : Text
  pub decimals : ℕ

pub record Money : Type 0 where
  pub asset : AssetId
  pub atomic_amount : Text

pub data MoneyError : Type 0 where
  different_assets bad_amount : MoneyError

unfoldable pub same_asset : AssetId → AssetId → Bool
same_asset left right =
    left.chain_id == right.chain_id
    && same_folded left.token_address right.token_address
    && left.decimals == right.decimals

unfoldable pub assert_same_asset : AssetId → AssetId → Result MoneyError (Unit {0})
unfolding same_asset
assert_same_asset left right = throw_if (not (same_asset left right)) different_assets

-- `parseAtomicAmount` as a call that may throw.
unfoldable pub amount_of : Text → Result MoneyError ℕ
amount_of s = elim (parse_atomic_amount s) [ none ↦ err bad_amount | some n ↦ ok n ]

unfoldable pub add_money : Money → Money → Result MoneyError Money
unfolding assert_same_asset amount_of
add_money left right = do
  assert_same_asset left.asset right.asset
  a ← amount_of left.atomic_amount
  b ← amount_of right.atomic_amount
  ok (record { asset = left.asset; atomic_amount = to_string (a + b) })
