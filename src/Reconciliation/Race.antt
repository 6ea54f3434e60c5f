-- ===== src/Reconciliation/Race.antt =====
-- Payment and expiry of one run, decided on the same reading of it.
use ship_yard.Prelude.{
  err-ne-ok, subst, ℕ, Ensures, Ensures->>=, Ensures_ok, ◌+◌, ◌≡◌, inl, inr, refl, sym, ap, ◌∙◌,
  Bool, true, false, none, some, Option, Option-cases, Text, ok, >>=-eq-ok, ok-injective,
}
use ship_yard.Dates.{Dates}
use ship_yard.Run.{RunAggregate, payment_required, same_status, next_run, transition_run}
use ship_yard.Settlement.{Ethers}
use ship_yard.Table.{find_row}
use ship_yard.Reconciliation.Store.{
  FundableRun, Store, FundedCommit, ExpiredCommit, set_funded, set_expired, commit_funded_run,
  commit_expired_run, VerifiedCustomerPayment, key_of,
}
use ship_yard.Reconciliation.Calls.{ran_with_event, stored-ok}
use ship_yard.Reconciliation.Funded.{funding_of-IsFunding}
use ship_yard.Reconciliation.Reconciler.{
  Ports, ran, stored, funding_of, expiry_command, reconcile_loaded, expire, settled_before,
  expiry_time,
}
use ship_yard.Reconciliation.Commits.{
  commit_funded_run_lem, commit_expired_run_lem, commit_expired_run_stale, commit_funded_run_stale,
}

-- `expire` on a reading of the run whose row has moved on since changes nothing.
expire-stale :
    (dates : Dates) (run : RunAggregate) (key : Text) (now : ℕ) (store : Store) {r : FundableRun}
    → find_row key_of run.id store.rows ≡ some r
    → r.run.revision ≡ run.revision + 1
    → Ensures (λ out. out ≡ (false, store)) (expire dates run key now store)
unfolding expire
expire-stale dates run key now store {r} found past =
    let P : Bool × Store → Type 0 = λ out. out ≡ (false, store) in
    Ensures->>= P (expiry_time dates (dates.parse run.updated_at) now) _ λ at timed.
      Ensures->>= P (ran (transition_run dates run (expiry_command run key at))) _ λ t moved.
        elim (Option-cases t.event) [
          | inl quiet ↦ rw quiet refl
          | inr (e, loud) ↦
              let (call, same, event) =
                ran_with_event dates run (expiry_command run key at) moved loud in
              let stale =
                commit_expired_run_stale
                  (record {
                    previous_revision = run.revision;
                    run = next_run run (expiry_command run key at);
                    event = e;
                  })
                  store found past in
              rw (loud, same, stale) tt
        ]

-- `expire` that answers true leaves the run's row one revision on.
expire-gone :
    (dates : Dates) (run : RunAggregate) (key : Text) (now : ℕ) (store : Store)
    → Ensures
        (λ out.
          out.0 ≡ true
          → (r : FundableRun) × (find_row key_of run.id (out.1).rows ≡ some r)
            × (r.run.revision ≡ run.revision + 1))
        (expire dates run key now store)
unfolding expire
expire-gone dates run key now store =
    let P : Bool × Store → Type 0 = λ out.
      out.0 ≡ true
      → (r : FundableRun) × (find_row key_of run.id (out.1).rows ≡ some r)
        × (r.run.revision ≡ run.revision + 1) in
    Ensures->>= P (expiry_time dates (dates.parse run.updated_at) now) _ λ at timed.
      Ensures->>= P (ran (transition_run dates run (expiry_command run key at))) _ λ t moved.
        elim (Option-cases t.event) [
          | inl quiet ↦ rw quiet (λ h. cc)
          | inr (e, loud) ↦
              let (call, same, event) =
                ran_with_event dates run (expiry_command run key at) moved loud in
              let input : ExpiredCommit = record {
                previous_revision = run.revision;
                run = next_run run (expiry_command run key at);
                event = e;
              } in
              rw (loud, same)
                (Ensures->>= P (stored (commit_expired_run input store)) _ λ next committed.
                  let (r, found, met, row) =
                    commit_expired_run_lem input store
                      (stored-ok (commit_expired_run input store) committed) in
                  λ h. (set_expired input r, row, refl))
        ]

module _ (dates : Dates) (ethers : Ethers) (keccak256 : Text → Text) (ports : Ports) where
  settled_before_awaiting :
      (context : FundableRun) (hash : Option Text)
      → context.run.status ≡ payment_required
      → settled_before dates ethers keccak256 ports context hash ≡ ok none
  unfolding same_status
  settled_before_awaiting context none awaiting = rw awaiting refl
  settled_before_awaiting context (some hash) awaiting = rw awaiting refl

  -- What a successful call on a run that awaits payment did.
  reconcile_loaded-commit :
      (id : Text) (context : FundableRun) (now : ℕ) (store : Store)
      {payment : VerifiedCustomerPayment} {after : Store}
      → context.run.status ≡ payment_required
      → reconcile_loaded dates ethers keccak256 ports id context now store ≡ ok (payment, after)
      → (f : FundedCommit) × (funding_of dates ethers keccak256 ports id context now ≡ ok f)
        × (commit_funded_run f store ≡ ok after)
        × (f.payment ≡ payment)
  unfolding reconcile_loaded
  reconcile_loaded-commit id context now store awaiting h0 =
      let h =
        rw (settled_before_awaiting context context.customer_payment_proof_hash awaiting) at h0 in
      let (f, funding, rest) =
        >>=-eq-ok (funding_of dates ethers keccak256 ports id context now) _ h in
      let (next, committed, out) = >>=-eq-ok (stored (commit_funded_run f store)) _ rest in
      let same = ok-injective out in
      (
        f,
        funding,
        stored-ok (commit_funded_run f store) committed ∙ ap ok (ap (λ o. o.1) same),
        ap (λ o. o.0) same,
      )

  -- Once a call has paid a run that was read awaiting payment, an expiry decided on that reading, with
  -- any key and at any time, either fails or changes nothing: it never expires the run.
  pub reconcile_loaded-expire :
      (id : Text) (context : FundableRun) (now : ℕ) (store after : Store)
      (payment : VerifiedCustomerPayment) (key : Text) (later : ℕ) (out : Bool × Store)
      → context.run.status ≡ payment_required
      → reconcile_loaded dates ethers keccak256 ports id context now store ≡ ok (payment, after)
      → expire dates context.run key later after ≡ ok out
      → out ≡ (false, after)
  reconcile_loaded-expire id context now store after payment key later out awaiting paid expired =
      let (f, funding, committed, same) =
        reconcile_loaded-commit id context now store awaiting paid in
      let made = funding_of-IsFunding dates ethers keccak256 ports id context now f funding in
      let (r, found, met, row) = commit_funded_run_lem f store committed in
      let id_same : f.run.id ≡ context.run.id = ap (λ x. x.id) made.run in
      let past : f.run.revision ≡ context.run.revision + 1 = ap (λ x. x.revision) made.run in
      Ensures_ok (λ o. o ≡ (false, after)) (expire dates context.run key later after)
        (expire-stale dates context.run key later after
          (subst (λ i. find_row key_of i after.rows ≡ some (set_funded f r)) id_same row) past)
        expired

  -- Once a run that was read awaiting payment is expired, a payment decided on that reading fails:
  -- the expired run is never funded.
  pub expire-reconcile_loaded :
      (id : Text) (context : FundableRun) (now : ℕ) (store after : Store) (key : Text) (later : ℕ)
      → context.run.status ≡ payment_required
      → expire dates context.run key now store ≡ ok (true, after)
      → (payment : VerifiedCustomerPayment) (last : Store)
      → ¬ (
          reconcile_loaded dates ethers keccak256 ports id context later after ≡ ok (payment, last))
  expire-reconcile_loaded id context now store after key later awaiting gone payment last paid =
      let (r, found, past) =
        Ensures_ok
          (λ out.
            out.0 ≡ true
            → (r : FundableRun) × (find_row key_of context.run.id (out.1).rows ≡ some r)
              × (r.run.revision ≡ context.run.revision + 1))
          (expire dates context.run key now store) (expire-gone dates context.run key now store)
          gone refl in
      let (f, funding, committed, same) =
        reconcile_loaded-commit id context later after awaiting paid in
      let made = funding_of-IsFunding dates ethers keccak256 ports id context later f funding in
      let id_same : f.run.id ≡ context.run.id = ap (λ x. x.id) made.run in
      let stale =
        commit_funded_run_stale f after
          (subst (λ i. find_row key_of i after.rows ≡ some r) (sym id_same) found)
          (past ∙ ap (λ n. n + 1) (sym made.previous)) in
      err-ne-ok (sym stale ∙ committed)
