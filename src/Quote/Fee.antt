-- ===== src/Quote/Fee.antt =====
-- The take rate of the fee.
use ship_yard.Prelude.{ℕ, ◌+◌, ◌-◌, ◌*◌, ◌/◌, ◌%◌, ◌<◌, ◌≤◌, ◌≡◌, ap, arith}
use ship_yard.Quote.{fee_atomic}
use native.Mathlib.Omega.{div_any}
use native.Mathlib.Nat.{mod-lt}

share_low :
    (fee costs rate d : ℕ)
    → d + rate ≡ 10_000
    → d * fee ≤ costs * rate
    → fee * 10_000 ≤ (costs + fee) * rate
share_low fee costs rate d split h = omega (arith, h, ap (λ x. fee * x) split)

share_high :
    (fee costs rate d : ℕ)
    → d + rate ≡ 10_000
    → costs * rate < d * fee + d
    → (costs + (fee + 1)) * rate < (fee + 1) * 10_000
share_high fee costs rate d split h = omega (arith, h, ap (λ x. (fee + 1) * x) split)

-- On a rate between 0 and 10000 the fee is the largest one that keeps within the rate of the sum of
-- the fee and the costs: the fee is at most the rate's share of the total, and one unit more would
-- exceed the share that it then had.
pub fee_atomic-rate :
    (rate costs : ℕ)
    → rate < 10_000
    → (fee_atomic rate costs * 10_000 ≤ (costs + fee_atomic rate costs) * rate)
      × ((costs + (fee_atomic rate costs + 1)) * rate < (fee_atomic rate costs + 1) * 10_000)
unfolding fee_atomic
fee_atomic-rate rate costs h =
    let whole = div_any (costs * rate) (10_000 - rate) in
    let rest : (costs * rate) % (10_000 - rate) < 10_000 - rate =
      mod-lt (costs * rate) (omega (arith, h)) in
    let split : (10_000 - rate) + rate ≡ 10_000 = omega (arith, h) in
    (
      share_low ((costs * rate) / (10_000 - rate)) costs rate (10_000 - rate) split
          (omega (arith, whole)),
      share_high ((costs * rate) / (10_000 - rate)) costs rate (10_000 - rate) split
          (omega (arith, whole, rest)),
    )
