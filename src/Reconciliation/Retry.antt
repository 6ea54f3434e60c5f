-- ===== src/Reconciliation/Retry.antt =====
-- `reconcile` called again after it returned.
use ship_yard.Prelude.{
  some-injective, Bool-cases, Option-cases, inl, inr, arith, ℕ, ◌≡◌, refl, ap, ◌∙◌, subst, true,
  none, some, Option, Text, same_folded, same_folded_iff, ok, >>=-eq-ok, ok-injective,
}
use ship_yard.Dates.{Dates}
use ship_yard.Run.{funded, same_status}
use ship_yard.Run.Names.{same_status_iff}
use ship_yard.Settlement.{Ethers}
use ship_yard.Table.{find_row}
use ship_yard.Reconciliation.Store.{
  FundableRun, Store, VerifiedCustomerPayment, load_fundable_run, commit_funded_run, set_funded,
  key_of,
}
use ship_yard.Table.{find_row_id}
use ship_yard.Reconciliation.Calls.{called-ok, stored-ok}
use ship_yard.Reconciliation.Funded.{funding_of-IsFunding}
use ship_yard.Reconciliation.Commits.{commit_funded_run_lem}
use ship_yard.Reconciliation.Reconciler.{
  Ports, called, stored, recorded, run_not_found, settled_before, conclude, funding_of,
  reconcile_loaded, reconcile,
}

module _ (dates : Dates) (ethers : Ethers) (keccak256 : Text → Text) (ports : Ports) where
  -- A run that records the payment whose hash it holds returns it, and keeps the store.
  recorded_again :
      (id : Text) (now : ℕ) (store : Store) {row : FundableRun} {hash : Text}
      {payment : VerifiedCustomerPayment}
      → load_fundable_run id store ≡ some row
      → row.run.status ≡ funded
      → row.customer_payment_proof_hash ≡ some hash
      → recorded hash row.customer_payment ≡ ok payment
      → reconcile dates ethers keccak256 ports id now store ≡ ok (payment, store)
  unfolding reconcile reconcile_loaded same_status
  recorded_again id now store {row} {hash} {payment} loaded status held kept =
      rw (loaded, held, status, kept) refl

recorded_own :
    (payment : VerifiedCustomerPayment) → recorded payment.proof_hash (some payment) ≡ ok payment
recorded_own payment =
    let same : same_folded payment.proof_hash payment.proof_hash ≡ true =
      (same_folded_iff payment.proof_hash payment.proof_hash).1 refl in
    rw same refl

module _ (dates : Dates) (ethers : Ethers) (keccak256 : Text → Text) (ports : Ports) where
  settled_before-some :
      (context : FundableRun) (o : Option Text) {payment : VerifiedCustomerPayment}
      → settled_before dates ethers keccak256 ports context o ≡ ok (some payment)
      → (hash : Text) × (o ≡ some hash)
        × (context.run.status ≡ funded)
        × (recorded hash context.customer_payment ≡ ok payment)
  settled_before-some context none h = absurd (ground arith)
  settled_before-some context (some hash) h =
      elim (Bool-cases (same_status context.run.status funded)) [
        | inl here ↦
            let rest = rw here at h in
            let (p, kept, same) = >>=-eq-ok (recorded hash context.customer_payment) _ rest in
            (
              hash,
              refl,
              (same_status_iff context.run.status funded).0 here,
              kept ∙ ap ok (some-injective (ok-injective same)),
            )
        | inr other ↦ absurd (ground arith)
      ]

  -- The first call paid the run.
  again_paid :
      (id : Text) (context : FundableRun) (now : ℕ) (store after : Store)
      (payment : VerifiedCustomerPayment)
      → context.run.id ≡ id
      → conclude dates ethers keccak256 ports id context now store none ≡ ok (payment, after)
      → (row : FundableRun) × (hash : Text) × (load_fundable_run id after ≡ some row)
        × (row.run.status ≡ funded)
        × (row.customer_payment_proof_hash ≡ some hash)
        × (recorded hash row.customer_payment ≡ ok payment)
  again_paid id context now store after payment named h =
      let (f, funding, rest) =
        >>=-eq-ok (funding_of dates ethers keccak256 ports id context now) _ h in
      let (next, committed, out) = >>=-eq-ok (stored (commit_funded_run f store)) _ rest in
      let same = ok-injective out in
      let done : commit_funded_run f store ≡ ok after =
        stored-ok (commit_funded_run f store) committed ∙ ap ok (ap (λ o. o.1) same) in
      let made = funding_of-IsFunding dates ethers keccak256 ports id context now f funding in
      let (r, found, met, row) = commit_funded_run_lem f store done in
      let id_same : f.run.id ≡ id = ap (λ x. x.id) made.run ∙ named in
      (
        set_funded f r,
        f.payment.proof_hash,
        subst (λ i. find_row key_of i after.rows ≡ some (set_funded f r)) id_same row,
        refl,
        refl,
        recorded_own f.payment ∙ ap ok (ap (λ o. o.0) same),
      )

  -- After a call that returned, the run's row records the payment that it returned.
  reconcile_records :
      (id : Text) (now : ℕ) (store after : Store) (payment : VerifiedCustomerPayment)
      → reconcile dates ethers keccak256 ports id now store ≡ ok (payment, after)
      → (row : FundableRun) × (hash : Text) × (load_fundable_run id after ≡ some row)
        × (row.run.status ≡ funded)
        × (row.customer_payment_proof_hash ≡ some hash)
        × (recorded hash row.customer_payment ≡ ok payment)
  unfolding reconcile reconcile_loaded
  reconcile_records id now store after payment h =
      let (context, loaded, h1) =
        >>=-eq-ok (called run_not_found (load_fundable_run id store)) _ h in
      let row = called-ok run_not_found (load_fundable_run id store) loaded in
      let (before, early, h2) =
        >>=-eq-ok
          (settled_before dates ethers keccak256 ports context context.customer_payment_proof_hash)
          _ h1 in
      elim (Option-cases before) [
        | inl nothing ↦
            again_paid id context now store after payment (find_row_id key_of id store.rows row) (
              subst
                (λ b.
                  conclude dates ethers keccak256 ports id context now store b
                  ≡ ok (payment, after))
                nothing h2)
        | inr (p, something) ↦
            let (hash, held, status, kept) =
              settled_before-some context context.customer_payment_proof_hash
                (early ∙ ap ok something) in
            let same = ok-injective (
              subst
                (λ b.
                  conclude dates ethers keccak256 ports id context now store b
                  ≡ ok (payment, after))
                something h2) in
            (
              context,
              hash,
              subst (λ s. load_fundable_run id s ≡ some context) (ap (λ o. o.1) same) row,
              status,
              held,
              kept ∙ ap ok (ap (λ o. o.0) same),
            )
      ]

-- What `reconcile` returned it returns again, and changes nothing more: after a call that returned a
-- payment, another call for the run, at any time and whatever the ports, the hash and the library
-- answer by then, returns the same payment and the same store.
pub reconcile_again :
    (dates : Dates) (ethers : Ethers) (keccak256 : Text → Text) (ports : Ports) (id : Text)
    (now : ℕ) (store after : Store) (payment : VerifiedCustomerPayment)
    → reconcile dates ethers keccak256 ports id now store ≡ ok (payment, after)
    → (later_dates : Dates) (later_ethers : Ethers) (later_hash : Text → Text) (later_ports : Ports)
      (later : ℕ)
    → reconcile later_dates later_ethers later_hash later_ports id later after ≡ ok (payment, after)
reconcile_again dates ethers keccak256 ports id now store after payment h d e k p later =
    let (row, hash, loaded, status, held, kept) =
      reconcile_records dates ethers keccak256 ports id now store after payment h in
    recorded_again d e k p id later after loaded status held kept
