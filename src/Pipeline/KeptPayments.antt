-- ===== src/Pipeline/KeptPayments.antt =====
-- pipeline/procurement-phase.ts: the receipt that the phase hands on, and that of the checkpoint.
use ship_yard.Prelude.{ℕ, Bool, true, false, ◌≡◌, refl, sym, ◌∙◌, ap, Option, none, some, Text}
use ship_yard.Run.{RunStatus}
use ship_yard.Plan.{CompiledTestPlan}
use ship_yard.Quote.{Quote}
use ship_yard.Policy.Purchase.{RunMandate, PurchaseIntent, PurchaseContext, PurchaseAuthorization}
use ship_yard.Checkpoint.{Checkpoint, truthy}
use ship_yard.Pipeline.State.{
  mandate_refused, policy_failed, bad_url, bad_amount, unreadable_payment, not_persisted,
  Authorization, AcquiredPayment, acquired, nonce_reserved, nonce_asked, refund_sent, World,
}
use ship_yard.Pipeline.Ports.{UrlParts, Deps}
use ship_yard.Pipeline.Procurement.{
  Purchase, or_default, build_mandate, authorize, read_payment, acquire_anew, payment_of,
  refund_nonce_of, refund_input, send_refund, refund_if, refund_rest, run_procurement_phase,
}
use ship_yard.Pipeline.Backed.{receipt_in, refund_nonce_in, AllBacked}
use ship_yard.Pipeline.Keeps.{
  After, Any, later_trans, After-onward, After-map, pure_lem, or_raise_lem, perform_lem,
  instant_lem, lift_kept, or_raise_kept, raise_if_kept,
}
use ship_yard.Pipeline.KeptRows.{IsRead, IsRead-Grows, merge_checkpoint_lem}

-- The row holds the receipt of the purchase.
abbrev pub IsHeld : Purchase → World → Type 0
IsHeld p v = receipt_in v.row ≡ some p.purchase_receipt

module _ (d : Deps) where
  pub build_mandate_lem :
      (w : World)
      → AllBacked w
      → (plan : CompiledTestPlan) (tool host : Text) (deadline : ℕ)
      → After Any w (build_mandate d plan tool host deadline w)
  unfolding build_mandate
  build_mandate_lem w b plan tool host deadline = lift_kept w b mandate_refused _

  pub authorize_lem :
      (w : World)
      → AllBacked w
      → (mandate : RunMandate) (intent : PurchaseIntent) (context : PurchaseContext)
      → After Any w (authorize d mandate intent context w)
  unfolding authorize
  authorize_lem w b mandate intent context =
      After-onward (lift_kept w b policy_failed _)
        λ (a : PurchaseAuthorization) v l _. raise_if_kept v l.backed _ _

  -- The receipt that a payment was read from.
  read_payment_lem :
      (w : World)
      → AllBacked w
      → (receipt : Text) → After (λ p _. p.2 ≡ receipt) w (read_payment d receipt w)
  unfolding read_payment
  read_payment_lem w b receipt =
      After-onward (or_raise_kept w b unreadable_payment _) λ (a : Authorization) v l _.
        pure_lem v l.backed (λ (p : ℕ × Text × Text) _. p.2 ≡ receipt) (a.value, a.nonce, receipt)
          refl

  read_held :
      (w : World)
      → AllBacked w
      → (receipt : Text) → receipt_in w.row ≡ some receipt
      → After (λ p v. receipt_in v.row ≡ some (p.2)) w (read_payment d receipt w)
  read_held w b receipt h =
      After-map (read_payment_lem w b receipt)
        λ p v l e. l.grows.receipt (p.2) (h ∙ ap some (sym e))

  acquire_anew_lem :
      (w : World)
      → AllBacked w
      → (quote : Quote) (ceiling : Text)
      → After (λ p v. receipt_in v.row ≡ some (p.2)) w (acquire_anew d quote ceiling w)
  unfolding acquire_anew
  acquire_anew_lem w b quote ceiling = After-onward (instant_lem w b d) λ now v l _.
      After-onward (perform_lem v l.backed _ acquired _ tt) λ (payment : AcquiredPayment) v2 l2 _.
        After-onward (merge_checkpoint_lem d v2 l2.backed _) λ persisted v3 l3 kept.
          After-onward (or_raise_lem v3 l3.backed not_persisted persisted.purchase_receipt)
            λ receipt v4 l4 e.
              After-onward (or_raise_kept v4 l4.backed not_persisted _) λ (_ : Text) v5 l5 _.
                read_held v5 l5.backed receipt
                  ((later_trans l4 l5).grows.receipt receipt (kept.receipt receipt e))

  payment_of_lem :
      (w : World)
      → AllBacked w
      → (quote : Quote) (ceiling : Text) (o : Option Text)
      → ((r : Text) → o ≡ some r → receipt_in w.row ≡ some r)
      → After (λ p v. receipt_in v.row ≡ some (p.2)) w (payment_of d quote ceiling o w)
  payment_of_lem w b quote ceiling none h = acquire_anew_lem w b quote ceiling
  payment_of_lem w b quote ceiling (some receipt) h = read_held w b receipt (h receipt refl)

  refund_nonce_of_lem :
      (w : World)
      → AllBacked w
      → (o : Option ℕ) → ((n : ℕ) → o ≡ some n → refund_nonce_in w.row ≡ some n)
      → After (λ n v. refund_nonce_in v.row ≡ some n) w (refund_nonce_of d o w)
  refund_nonce_of_lem w b (some n) h =
      pure_lem w b (λ n v. refund_nonce_in v.row ≡ some n) n (h n refl)
  refund_nonce_of_lem w b none h =
      After-onward (perform_lem w b _ nonce_reserved _ tt) λ (reserved : ℕ) v l _.
        After-onward (merge_checkpoint_lem d v l.backed _) λ persisted v2 l2 kept.
          let (m, e) = kept.set reserved refl in
          pure_lem v2 l2.backed (λ n v. refund_nonce_in v.row ≡ some n)
            (or_default reserved persisted.refund_nonce) (rw e (kept.nonce m e))

  send_refund_lem :
      (w : World)
      → AllBacked w
      → (checkpoint : Checkpoint) (quote : Quote) (amount : ℕ) → IsRead checkpoint w.row
      → After Any w (send_refund d checkpoint quote amount w)
  unfolding send_refund
  send_refund_lem w b checkpoint quote amount read =
      After-onward (refund_nonce_of_lem w b checkpoint.refund_nonce read.nonce) λ nonce v l held.
        After-onward (perform_lem v l.backed _ (nonce_asked nonce) _ tt)
          λ (consumed : Bool) v2 l2 _.
            After-onward (raise_if_kept v2 l2.backed consumed _) λ _ v3 l3 _.
              let refund = refund_input d quote amount nonce in
              After-onward
                (perform_lem v3 l3.backed _ (refund_sent refund) _
                  ((later_trans l2 l3).grows.nonce nonce held))
                λ (hash : Text) v4 l4 _.
                  After-onward (merge_checkpoint_lem d v4 l4.backed _)
                    λ _ v5 l5 _. pure_lem v5 l5.backed Any tt tt

  refund_if_lem :
      (w : World)
      → AllBacked w
      → (c : Bool) (checkpoint : Checkpoint) (quote : Quote) (amount : ℕ) → IsRead checkpoint w.row
      → After Any w (refund_if d c checkpoint quote amount w)
  refund_if_lem w b true checkpoint quote amount read =
      send_refund_lem w b checkpoint quote amount read
  refund_if_lem w b false checkpoint quote amount read = pure_lem w b Any tt tt

  refund_rest_lem :
      (w : World)
      → AllBacked w
      → (c : Bool) (checkpoint : Checkpoint) (quote : Quote) (spent : ℕ) → IsRead checkpoint w.row
      → After Any w (refund_rest d c checkpoint quote spent w)
  refund_rest_lem w b false checkpoint quote spent read = pure_lem w b Any tt tt
  refund_rest_lem w b true checkpoint quote spent read =
      After-onward (or_raise_kept w b bad_amount _) λ (budget : ℕ) v l _.
        refund_if_lem v l.backed _ checkpoint quote _ (IsRead-Grows read l.grows)

  pub run_procurement_phase_lem :
      (w : World)
      → AllBacked w
      → (run_id : Text) (checkpoint : Checkpoint) (plan : CompiledTestPlan) (quote : Quote)
        (status : RunStatus)
      → IsRead checkpoint w.row
      → After IsHeld w (run_procurement_phase d run_id checkpoint plan quote status w)
  unfolding run_procurement_phase
  run_procurement_phase_lem w b run_id checkpoint plan quote status read =
      After-onward (or_raise_kept w b bad_url _) λ (target : UrlParts) v l _.
        After-onward (instant_lem v l.backed d) λ now v2 l2 _.
          After-onward (build_mandate_lem v2 l2.backed plan _ _ _) λ mandate v3 l3 _.
            After-onward (authorize_lem v3 l3.backed mandate _ _) λ _ v4 l4 _.
              let before = later_trans l (later_trans l2 (later_trans l3 l4)) in
              let here = IsRead-Grows read before.grows in
              After-onward
                (payment_of_lem v4 l4.backed quote _ (truthy checkpoint.purchase_receipt)
                  here.receipt)
                λ payment v5 l5 held.
                  After-onward
                    (refund_rest_lem v5 l5.backed d.refunds checkpoint quote (payment.0)
                      (IsRead-Grows here l5.grows))
                    λ _ v6 l6 _. pure_lem v6 l6.backed IsHeld _ (l6.grows.receipt (payment.2) held)
