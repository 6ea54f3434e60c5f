-- ===== src/CrossChain/Defs.antt =====
-- packages/x402-payments/src/cross-chain-procurement.ts: `transitionCrossChainProcurement`.
use ship_yard.Prelude.{ℕ, false, Text, ltb, Result, ok, err, ◌>>=◌, ◌>>◌, throw_if}
use ship_yard.CrossChain.Checks.{
  ProcurementError, refund_refused, invalid_transition, under_target_ceiling, over_target_ceiling,
  assert_hash, assert_non_empty, assert_atomic_amount,
}

pub data State : Type 0 where
  awaiting_source_lock : State
  -- source hash
  source_locked : Text → State
  -- source hash, transfer
  bridging : Text → Text → State
  -- source hash, transfer, destination hash, amount received
  destination_funded : Text → Text → Text → Text → State
  -- the same, and the payment
  target_payment_submitted : Text → Text → Text → Text → Text → State
  -- the same, and the target payment's hash and the amount spent
  target_paid : Text → Text → Text → Text → Text → Text → Text → State
  -- target payment's hash, attestation's hash
  attested : Text → Text → State
  -- reason
  refund_pending : Text → State
  -- reason, refund's hash
  refunded : Text → Text → State
  failed : Text → State

pub data Event : Type 0 where
  source_funds_locked bridge_submitted : Text → Event
  destination_funds_received : Text → Text → Event
  target_payment_created : Text → Event
  target_payment_confirmed : Text → Text → Event
  attestation_confirmed refund_requested refund_confirmed fail : Text → Event

abbrev pub Outcome : Type 0
Outcome = Result ProcurementError State

-- `{ status: 'REFUND_PENDING', reason: requireReason(reason) }` and the like.
abbrev with_reason : (Text → State) → Text → Outcome
with_reason make reason = do assert_non_empty reason; ok (make reason)

abbrev request_refund : State → Text → Outcome
request_refund (attested _ _) reason = err refund_refused
request_refund (refunded _ _) reason = err refund_refused
request_refund _ reason = with_reason refund_pending reason

abbrev confirm_refund : State → Text → Outcome
confirm_refund (refund_pending reason) hash = do assert_hash hash; ok (refunded reason hash)
confirm_refund _ hash = err invalid_transition

-- The `switch` over the state, on the events that are left.
abbrev progress : ℕ → State → Event → Outcome
progress ceiling awaiting_source_lock (source_funds_locked hash) = do
  assert_hash hash
  ok (source_locked hash)
progress ceiling (source_locked source) (bridge_submitted transfer) = do
  assert_non_empty transfer
  ok (bridging source transfer)
progress ceiling (bridging source transfer) (destination_funds_received hash amount) = do
  assert_hash hash
  received ← assert_atomic_amount amount false
  throw_if (ltb received ceiling) under_target_ceiling
  ok (destination_funded source transfer hash amount)
progress ceiling (destination_funded source transfer hash amount) (target_payment_created payment) =
    do assert_non_empty payment; ok (target_payment_submitted source transfer hash amount payment)
progress ceiling (target_payment_submitted source transfer hash amount payment)
      (target_payment_confirmed paid spent_text) =
    do
      assert_hash paid
      spent ← assert_atomic_amount spent_text false
      throw_if (ltb ceiling spent) over_target_ceiling
      ok (target_paid source transfer hash amount payment paid spent_text)
progress ceiling (target_paid source transfer hash amount payment paid spent)
      (attestation_confirmed attestation) =
    do assert_hash attestation; ok (attested paid attestation)
progress ceiling _ _ = err invalid_transition

-- The transition once the ceiling is read.
unfoldable pub apply : ℕ → State → Event → Outcome
apply ceiling state (fail reason) = with_reason failed reason
apply ceiling state (refund_requested reason) = request_refund state reason
apply ceiling state (refund_confirmed hash) = confirm_refund state hash
apply ceiling state event = progress ceiling state event

-- `transitionCrossChainProcurement`
unfoldable pub transition_cross_chain_procurement : State → Event → Text → Outcome
transition_cross_chain_procurement state event target_maximum = do
  ceiling ← assert_atomic_amount target_maximum false
  apply ceiling state event
