-- ===== src/Pipeline/KeptTarget.antt =====
-- pipeline/cross-chain-procurement-phase.ts: the receipt that the phase hands on, and that of the
-- checkpoint.
use ship_yard.Prelude.{
  ℕ, Bool, true, false, ◌≡◌, refl, ap, Option, none, some, Text, Result, ok, err, none-ne-some,
  some-injective,
}
use ship_yard.Run.{RunStatus}
use ship_yard.Plan.{CompiledTestPlan}
use ship_yard.Quote.{Quote}
use ship_yard.CrossChain.{CrossChainProcurementIntent, BridgeQuote}
use ship_yard.Checkpoint.{Checkpoint, truthy}
use ship_yard.Pipeline.State.{
  intent_refused, bad_url, bad_amount, not_persisted, no_bridge, bridge_timeout, bridge_ended,
  TargetPayment, PayerError, not_payable, payer_threw, BridgeState, destination_funded,
  BridgeStatus, BridgeSubmission, Leg, bridge_quoted, target_paid, bridge_submitted, bridge_asked,
  leg_recorded, World,
}
use ship_yard.Pipeline.Ports.{
  Bridge, PayerMode, bridge_then_pay, prefunded, PayerRegistration, UrlParts, Deps,
}
use ship_yard.Pipeline.Steps.{tick, logged}
use ship_yard.Pipeline.CrossChain.{
  TargetReceipt, receipt_of, checkpointed_receipt, authorize_procurement, paid_or_denied,
  acquire_target, target_payment_of, fund_if_bridged, run_cross_chain_procurement_phase,
}
use ship_yard.Pipeline.Bridging.{
  record_leg_if, record_leg, transfer_of, delivered_of, received_of, fund_destination_by_bridge,
}
use ship_yard.Pipeline.Backed.{receipt_in, AllBacked}
use ship_yard.Pipeline.Keeps.{
  After, Any, later_refl, later_trans, returned, threw, After-later, After-onward, After-map,
  pure_lem, or_raise_lem, logged_lem, perform_lem, instant_lem, lift_kept, or_raise_kept,
  raise_if_kept,
}
use ship_yard.Pipeline.KeptRows.{IsRead, IsRead-Grows, merge_checkpoint_lem}
use ship_yard.Pipeline.KeptPayments.{IsHeld, build_mandate_lem, authorize_lem}

receipt_of_lem :
    (a b c : Option Text) (r : TargetReceipt) → receipt_of a b c ≡ some r → a ≡ some r.receipt
receipt_of_lem (some a) (some b) (some c) r h = ap (λ t. some t.receipt) (some-injective h)
receipt_of_lem (some a) (some b) none r h = absurd (none-ne-some h)
receipt_of_lem (some a) none c r h = absurd (none-ne-some h)
receipt_of_lem none b c r h = absurd (none-ne-some h)

-- The receipt that a checkpoint holds is the one that its fields name.
checkpointed_receipt_lem :
    (c : Checkpoint) (r : TargetReceipt)
    → checkpointed_receipt c ≡ some r
    → truthy c.purchase_receipt ≡ some r.receipt
checkpointed_receipt_lem c r h =
    receipt_of_lem (truthy c.purchase_receipt) (truthy c.payment_transaction_hash)
      (truthy c.target_payment_amount_atomic) r h

-- The row holds the receipt that the target was paid with.
abbrev HoldsTarget : TargetReceipt → World → Type 0
HoldsTarget r v = receipt_in v.row ≡ some r.receipt

module _ (d : Deps) where
  record_leg_lem : (w : World) → AllBacked w → (l : Leg) → After Any w (record_leg d l w)
  unfolding record_leg
  record_leg_lem w b l = recorded d.settlement_legs
    where
      recorded : (c : Bool) → After Any w (record_leg_if d c l w)
      recorded false = returned (later_refl b) tt
      recorded true = returned (logged_lem w b (leg_recorded l) tt) tt

  authorize_procurement_lem :
      (w : World)
      → AllBacked w
      → (payer : PayerRegistration) (run_id : Text) (plan : CompiledTestPlan) (quote : Quote)
        (host : Text) (status : RunStatus) (now : ℕ)
      → After Any w (authorize_procurement d payer run_id plan quote host status now w)
  unfolding authorize_procurement
  authorize_procurement_lem w b payer run_id plan quote host status now =
      After-onward (build_mandate_lem d w b plan _ _ _)
        λ mandate v l _. authorize_lem d v l.backed mandate _ _

  transfer_of_lem :
      (w : World)
      → AllBacked w
      → (bridge : Bridge) (intent : CrossChainProcurementIntent) (run_id : Text) (now : ℕ)
        (at : Option ℕ) (o : Option (Text × Text))
      → After Any w (transfer_of d bridge intent run_id now at o w)
  transfer_of_lem w b bridge intent run_id now at (some (transfer, hash)) =
      pure_lem w b Any (transfer, at) tt
  transfer_of_lem w b bridge intent run_id now at none =
      After-onward (perform_lem w b _ bridge_quoted _ tt) λ (quote : BridgeQuote) v l _.
        After-onward (perform_lem v l.backed _ (bridge_submitted _) _ tt)
          λ (submission : BridgeSubmission) v2 l2 _.
            After-onward (merge_checkpoint_lem d v2 l2.backed _) λ persisted v3 l3 _.
              After-onward (or_raise_kept v3 l3.backed not_persisted _)
                λ (kept : Text × Text) v4 l4 _.
                  After-onward (or_raise_kept v4 l4.backed not_persisted _) λ (since : ℕ) v5 l5 _.
                    After-onward (record_leg_lem v5 l5.backed _)
                      λ _ v6 l6 _. pure_lem v6 l6.backed Any (kept.0, some since) tt

  delivered_of_lem :
      (w : World)
      → AllBacked w
      → (status : BridgeState) (hash amount : Option Text)
      → After Any w (delivered_of d status hash amount w)
  delivered_of_lem w b BridgeState.pending hash amount = threw (later_refl b)
  delivered_of_lem w b destination_funded hash amount = or_raise_kept w b bridge_ended _
  delivered_of_lem w b BridgeState.failed hash amount = threw (later_refl b)
  delivered_of_lem w b BridgeState.refunded hash amount = threw (later_refl b)

  received_of_lem :
      (w : World)
      → AllBacked w
      → (bridge : Bridge) (transfer : Text) (at : Option ℕ) (now : ℕ) (o : Option (Text × Text))
      → After Any w (received_of d bridge transfer at now o w)
  received_of_lem w b bridge transfer at now (some (hash, amount)) = pure_lem w b Any amount tt
  received_of_lem w b bridge transfer at now none =
      After-onward (raise_if_kept w b _ bridge_timeout) λ _ v l _.
        After-onward (perform_lem v l.backed _ (bridge_asked transfer) _ tt)
          λ (status : BridgeStatus) v2 l2 _.
            After-onward (delivered_of_lem v2 l2.backed status.status _ _) λ delivered v3 l3 _.
              After-onward (merge_checkpoint_lem d v3 l3.backed _) λ persisted v4 l4 _.
                After-onward (or_raise_kept v4 l4.backed not_persisted _)
                  λ (kept : Text × Text) v5 l5 _.
                    After-onward (record_leg_lem v5 l5.backed _)
                      λ _ v6 l6 _. pure_lem v6 l6.backed Any (kept.1) tt

  fund_destination_by_bridge_lem :
      (w : World)
      → AllBacked w
      → (payer : PayerRegistration) (run_id : Text) (checkpoint : Checkpoint) (seconds now : ℕ)
      → After Any w (fund_destination_by_bridge d payer run_id checkpoint seconds now w)
  unfolding fund_destination_by_bridge
  fund_destination_by_bridge_lem w b payer run_id checkpoint seconds now =
      After-onward (or_raise_kept w b no_bridge payer.bridge) λ bridge v l _.
        After-onward (lift_kept v l.backed intent_refused _)
          λ (intent : CrossChainProcurementIntent) v2 l2 _.
            After-onward (transfer_of_lem v2 l2.backed bridge intent run_id seconds _ _)
              λ transfer v3 l3 _.
                After-onward (received_of_lem v3 l3.backed bridge _ _ seconds _) λ amount v4 l4 _.
                  After-onward (or_raise_kept v4 l4.backed bad_amount _) λ (received : ℕ) v5 l5 _.
                    After-onward (or_raise_kept v5 l5.backed bad_amount _)
                      λ (ceiling : ℕ) v6 l6 _. raise_if_kept v6 l6.backed _ _

  fund_if_bridged_lem :
      (w : World)
      → AllBacked w
      → (mode : PayerMode) (payer : PayerRegistration) (run_id : Text) (checkpoint : Checkpoint)
        (seconds now : ℕ)
      → After Any w (fund_if_bridged d mode payer run_id checkpoint seconds now w)
  fund_if_bridged_lem w b bridge_then_pay payer run_id checkpoint seconds now =
      fund_destination_by_bridge_lem w b payer run_id checkpoint seconds now
  fund_if_bridged_lem w b prefunded payer run_id checkpoint seconds now = pure_lem w b Any tt tt

  paid_or_denied_lem :
      (w : World)
      → AllBacked w
      → (r : Result PayerError TargetPayment) → After Any w (paid_or_denied d r w)
  paid_or_denied_lem w b (ok payment) = pure_lem w b Any payment tt
  paid_or_denied_lem w b (err (payer_threw message)) = threw (later_refl b)
  paid_or_denied_lem w b (err (not_payable denials)) =
      After-onward (record_leg_lem w b _) λ _ v l _. threw (later_refl l.backed)

  acquire_target_lem :
      (w : World)
      → AllBacked w
      → (endpoint key : Text) → After Any w (acquire_target d endpoint key w)
  acquire_target_lem w b endpoint key =
      After-later Any _ (logged_lem w b (target_paid key) tt) (
        paid_or_denied_lem (logged (target_paid key) w) (tt, b)
          (d.pay_target (tick w) endpoint key))

  target_payment_of_lem :
      (w : World)
      → AllBacked w
      → (run_id endpoint : Text) (o : Option TargetReceipt)
      → ((r : TargetReceipt) → o ≡ some r → receipt_in w.row ≡ some r.receipt)
      → After HoldsTarget w (target_payment_of d run_id endpoint o w)
  target_payment_of_lem w b run_id endpoint (some r) h = pure_lem w b HoldsTarget r (h r refl)
  target_payment_of_lem w b run_id endpoint none h =
      After-onward (acquire_target_lem w b endpoint _) λ payment v l _.
        After-onward (merge_checkpoint_lem d v l.backed _) λ persisted v2 l2 kept.
          After-map (or_raise_lem v2 l2.backed not_persisted (checkpointed_receipt persisted))
            λ r v3 l3 e.
              l3.grows.receipt r.receipt
                (kept.read r.receipt (checkpointed_receipt_lem persisted r e))

  pub run_cross_chain_procurement_phase_lem :
      (w : World)
      → AllBacked w
      → (payer : PayerRegistration) (run_id : Text) (checkpoint : Checkpoint)
        (plan : CompiledTestPlan) (quote : Quote) (status : RunStatus)
      → IsRead checkpoint w.row
      → After IsHeld w
          (run_cross_chain_procurement_phase d payer run_id checkpoint plan quote status w)
  unfolding run_cross_chain_procurement_phase
  run_cross_chain_procurement_phase_lem w b payer run_id checkpoint plan quote status read =
      After-onward (instant_lem w b d) λ now v l _.
        After-onward (or_raise_kept v l.backed bad_url _) λ (target : UrlParts) v2 l2 _.
          After-onward (authorize_procurement_lem v2 l2.backed payer run_id plan quote _ status _)
            λ _ v3 l3 _.
              After-onward
                (fund_if_bridged_lem v3 l3.backed payer.mode payer run_id checkpoint _ now)
                λ _ v4 l4 _. After-onward (record_leg_lem v4 l4.backed _) λ _ v5 l5 _.
                  let before =
                    later_trans l (later_trans l2 (later_trans l3 (later_trans l4 l5))) in
                  let here = IsRead-Grows read before.grows in
                  After-onward
                    (target_payment_of_lem v5 l5.backed run_id _ (checkpointed_receipt checkpoint)
                      (λ r e. here.receipt r.receipt (checkpointed_receipt_lem checkpoint r e)))
                    λ receipt v6 l6 held. After-onward (record_leg_lem v6 l6.backed _) λ _ v7 l7 _.
                      After-onward (or_raise_kept v7 l7.backed bad_amount _) λ (amount : ℕ) v8 l8 _.
                        pure_lem v8 l8.backed IsHeld _
                          ((later_trans l7 l8).grows.receipt receipt.receipt held)
