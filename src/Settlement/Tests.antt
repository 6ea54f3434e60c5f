-- ===== src/Settlement/Tests.antt =====
-- The verifier on one settled order, where every text is its own checksummed address.
use ship_yard.Prelude.{
  ◌≡◌, ◌↔◌, refl, true, [], ◌∷◌, text_eq, same_folded, to_lower, unique, unseen, has,
}
use ship_yard.Settlement.{
  transaction_reverted, find_log, same_address, matches_transfer, matches_transfer_log,
  settlement_failures, verify_settlement,
}
use ship_yard.Settlement.Samples.{plain, paid_order, payment_proof, receipt_of, expectation}
use ship_yard.Settlement.Verdict.{IsSettled, verify_settlement-valid_iff}

machine : Unit {0}
unfolding text_eq same_folded to_lower unique unseen has find_log same_address matches_transfer
    matches_transfer_log settlement_failures verify_settlement
machine = tt

settles : (verify_settlement plain paid_order payment_proof (receipt_of 1) expectation).valid ≡ true
unfolding machine
settles = refl

reverted :
    (verify_settlement plain paid_order payment_proof (receipt_of 0) expectation).failure_codes
    ≡ transaction_reverted ∷ []
unfolding machine
reverted = refl

verify_settlement-valid_iff_example :
    ((verify_settlement plain paid_order payment_proof (receipt_of 1) expectation).valid ≡ true)
    ↔ IsSettled plain paid_order payment_proof (receipt_of 1) expectation
verify_settlement-valid_iff_example =
    verify_settlement-valid_iff plain paid_order payment_proof (receipt_of 1) expectation
