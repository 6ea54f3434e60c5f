-- ===== src/Reconciliation/Funded.antt =====
-- What a payment that `reconcile` commits rests on.
use ship_yard.Prelude.{
  ℕ, ◌≡◌, refl, ap, ◌∙◌, not, ◌&&◌, some, Text, ok, >>=-eq-ok, ok-injective, throw_if, throw_if-ok,
  Ensures, Ensures->>=, Ensures_ok, passed,
}
use ship_yard.Dates.{Dates}
use ship_yard.Run.{next_run, event_of, transition_run}
use ship_yard.Run.Transition.{accepted}
use ship_yard.Settlement.{Ethers, verify_settlement, MerchantOrder, is_successful}
use ship_yard.Settlement.Verdict.{IsSettled, verify_settlement-valid_iff}
use ship_yard.Reconciliation.Store.{FundableRun, FundedCommit}
use ship_yard.Reconciliation.Calls.{called-ok, ran_with_event}
use ship_yard.Reconciliation.Reconciler.{
  Ports, ran, called, funding_of, funding_command, expectation, settled_order, port_failure,
  payment_not_ready, receipt_not_available, settlement_rejected, no_event, reached, order_expired,
}

module _ (dates : Dates) (ethers : Ethers) (keccak256 : Text → Text) (ports : Ports) where
  -- The order, the proof and the receipt are what the ports return; they settle what the quote
  -- expects; and the run is moved by the reconciler's command, which the state machine accepts.
  pub record IsFunding (context : FundableRun) (now : ℕ) (f : FundedCommit) : Type 0 where
    pub asked_order : ports.get_order_status context.payment_order.order_id ≡ some f.payment.order
    pub asked_proof : ports.get_order_proof f.payment.order.order_id ≡ some f.payment.proof
    pub read_receipt :
        ports.get_transaction_receipt f.payment.order.chain_id f.payment.proof.transaction_hash
        ≡ some (some f.payment.receipt)
    pub settled :
        IsSettled ethers f.payment.order f.payment.proof f.payment.receipt (expectation context)
    pub accepts :
        transition_run dates context.run
          (funding_command context.run f.payment.proof (dates.to_iso now))
        ≡ ok (accepted context.run (funding_command context.run f.payment.proof (dates.to_iso now)))
    pub run :
        f.run
        ≡ next_run context.run (funding_command context.run f.payment.proof (dates.to_iso now))
    pub event :
        f.event
        ≡ event_of context.run (funding_command context.run f.payment.proof (dates.to_iso now))
    pub previous : f.previous_revision ≡ context.run.revision

  settled_order-ok :
      (context : FundableRun) (now : ℕ) {order : MerchantOrder}
      → settled_order dates ethers keccak256 ports context now ≡ ok order
      → ports.get_order_status context.payment_order.order_id ≡ some order
  settled_order-ok context now {order} h =
      let (o, call, rest) =
        >>=-eq-ok (called port_failure (ports.get_order_status context.payment_order.order_id)) _
          h in
      let (_, _, rest1) =
        >>=-eq-ok
          (throw_if (not (is_successful o.status) && reached (dates.parse o.expires_at) now)
            order_expired)
          _ rest in
      let (_, _, rest2) =
        >>=-eq-ok (throw_if (not (is_successful o.status)) (payment_not_ready o.status)) _ rest1 in
      called-ok port_failure (ports.get_order_status context.payment_order.order_id) call
      ∙ ap some (ok-injective rest2)

  -- Every step of `funding_of` that returned, in order.
  funding_of-Ensures :
      (id : Text) (context : FundableRun) (now : ℕ)
      → Ensures (IsFunding context now) (funding_of dates ethers keccak256 ports id context now)
  unfolding funding_of
  funding_of-Ensures id context now =
      let P = IsFunding context now in
      Ensures->>= P (settled_order dates ethers keccak256 ports context now) _ λ order ordered.
        Ensures->>= P (called port_failure (ports.get_order_proof order.order_id)) _ λ proof proved.
          Ensures->>= P
            (called port_failure
              (ports.get_transaction_receipt order.chain_id proof.transaction_hash))
            _
            λ found looked. Ensures->>= P (called receipt_not_available found) _ λ receipt read.
              Ensures->>= P
                (throw_if
                  (not (verify_settlement ethers order proof receipt (expectation context)).valid)
                  (settlement_rejected
                    (verify_settlement ethers order proof receipt
                      (expectation context)).failure_codes))
                _
                λ u checked.
                  Ensures->>= P
                    (ran (
                      transition_run dates context.run
                        (funding_command context.run proof (dates.to_iso now))))
                    _
                    λ t moved. Ensures->>= P (called no_event t.event) _ λ e evented.
                      let command = funding_command context.run proof (dates.to_iso now) in
                      let (call, same, event) =
                        ran_with_event dates context.run command moved
                          (called-ok no_event t.event evented) in
                      record {
                        asked_order = settled_order-ok context now ordered;
                        asked_proof =
                            called-ok port_failure (ports.get_order_proof order.order_id) proved;
                        read_receipt =
                            called-ok port_failure
                              (ports.get_transaction_receipt order.chain_id proof.transaction_hash)
                              looked
                            ∙ ap some (called-ok receipt_not_available found read);
                        settled =
                            (verify_settlement-valid_iff ethers order proof receipt
                                (expectation context)).0
                              ((passed _).0 (throw_if-ok _ _ checked));
                        accepts = call;
                        run = ap (λ o. o.run) same;
                        event = event;
                        previous = refl;
                      }

  -- A funding rests on a settled payment: when `reconcile` comes to a commit, the order, proof and
  -- receipt that the ports returned settle what the run's quote expects, and the run is moved on by
  -- the reconciler's command, which the state machine accepts.
  pub funding_of-IsFunding :
      (id : Text) (context : FundableRun) (now : ℕ) (f : FundedCommit)
      → funding_of dates ethers keccak256 ports id context now ≡ ok f
      → IsFunding context now f
  funding_of-IsFunding id context now f h =
      Ensures_ok (IsFunding context now) (funding_of dates ethers keccak256 ports id context now)
        (funding_of-Ensures id context now) h
