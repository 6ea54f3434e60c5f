-- ===== src/CrossChain/Refund.antt =====
-- What the guard on refunds keeps out, and what it lets through.
use ship_yard.Prelude.{ℕ, ◌≡◌, true, false, [], ◌∷◌, Text, is_blank, is_hex, ok, err}
use ship_yard.CrossChain.Checks.{
  refund_refused, assert_atomic_amount, assert_hash, assert_non_empty,
}
use ship_yard.CrossChain.Defs.{
  attested, refunded, refund_requested, refund_confirmed, fail, apply,
  transition_cross_chain_procurement,
}
use ship_yard.CrossChain.Trace.{apply_all}

-- An attested procurement refuses a refund request, yet a FAILED event moves it to FAILED, from
-- where the refund is requested and confirmed: for every positive ceiling, non-blank reason and
-- well-formed refund hash, an attested (hence paid) procurement ends REFUNDED.
pub attested-refunded :
    (target_maximum paid attestation reason hash : Text) (ceiling : ℕ)
    → assert_atomic_amount target_maximum false ≡ ok ceiling
    → is_blank reason ≡ false
    → is_hex 64 hash ≡ true
    → (transition_cross_chain_procurement
          (attested paid attestation)
          (refund_requested reason)
          target_maximum
        ≡ err refund_refused)
      × (apply_all target_maximum
            (attested paid attestation)
            (fail reason ∷ refund_requested reason ∷ refund_confirmed hash ∷ [])
          ≡ ok (refunded reason hash))
unfolding apply_all transition_cross_chain_procurement apply assert_non_empty assert_hash
attested-refunded target_maximum paid attestation reason hash ceiling read said hashed =
    (rw read, simp (read, said, hashed))
