-- ===== src/PaymentJobs/Lease.antt =====
-- Who may finish a claimed job.
use ship_yard.Prelude.{
  inr, inl, ℕ, ◌≡◌, refl, sym, ap, ◌∙◌, subst, arith, true, ◌||◌, not, none, some, Option,
  Option-cases, map, Text, text_eq, text_eq_iff, length, ltb, ◌==◌, ok, >>=-eq-ok, ok-injective,
  throw_if,
}
use ship_yard.Table.{find_row, update_row, find_row_id, update_row_found}
use ship_yard.Prelude.{some-injective}
use ship_yard.PaymentJobs.Jobs.{
  Job, Jobs, ClaimedJob, key_of_job, is_worker_id, bad_worker_id, bad_lease_duration, bad_claim,
}
use ship_yard.PaymentJobs.Queue.{
  bury, is_claimable, candidate, claimed, claim_of, take, claim_next, holds, affected, finish_lease,
}

-- What a claim leaves: the row of the claimed job, in the worker's hands.
pub record IsClaim (worker : Text) (seconds now : ℕ) (c : ClaimedJob) (after : Jobs) : Type 0 where
  pub job : Job
  pub claimable : is_claimable seconds now job ≡ true
  pub row : find_row key_of_job c.run_id after ≡ some (claimed worker now job)
  pub claim : c ≡ claim_of worker (claimed worker now job)

take-IsClaim :
    (worker : Text) (seconds now : ℕ) (jobs : Jobs) (o : Option Job) {c : ClaimedJob} {after : Jobs}
    → take worker seconds now jobs o ≡ (some c, after)
    → IsClaim worker seconds now c after
take-IsClaim worker seconds now jobs none h = absurd (ground arith)
take-IsClaim worker seconds now jobs (some job) {c} {after} h =
    elim (Option-cases
      (update_row key_of_job job.run_id (is_claimable seconds now) (claimed worker now) jobs)) [
        | inl bad ↦ absurd (ground arith)
        | inr (next, good) ↦
            let (r, found, met, row) =
              update_row_found key_of_job (is_claimable seconds now) (claimed worker now)
                (λ x. refl) job.run_id jobs good in
            let named = find_row_id key_of_job job.run_id jobs found in
            let result = rw (good, row) at h in
            let same : next ≡ after = ap (λ o. o.1) result in
            let claim : claim_of worker (claimed worker now r) ≡ c =
              some-injective (ap (λ o. o.0) result) in
            let id_same : job.run_id ≡ c.run_id = sym named ∙ ap (λ o. o.run_id) claim in
            record { job = r; claimable = met; row = rw (← same, ← id_same) row; claim = sym claim }
      ]

pub claim_next-IsClaim :
    (worker : Text) (seconds now : ℕ) (jobs : Jobs) {c : ClaimedJob} {after : Jobs}
    → claim_next worker seconds now jobs ≡ ok (some c, after)
    → IsClaim worker seconds now c after
unfolding claim_next
claim_next-IsClaim worker seconds now jobs h0 =
    let (_, _, h1) = >>=-eq-ok (throw_if (not (is_worker_id worker)) bad_worker_id) _ h0 in
    let (_, _, h2) =
      >>=-eq-ok (throw_if (ltb seconds 5 || ltb 600 seconds) bad_lease_duration) _ h1 in
    let swept = map (bury seconds now) jobs in
    take-IsClaim worker seconds now swept (candidate seconds now swept) (ok-injective h2)

affected-ok : (o : Option Jobs) {jobs : Jobs} → affected o ≡ ok jobs → o ≡ some jobs
affected-ok none h = cc
affected-ok (some js) h = ap some (ok-injective h)

-- What a finished lease did.
pub finish_lease-ok :
    (c : ClaimedJob) (change : Job → Job) (jobs : Jobs) {after : Jobs}
    → finish_lease c change jobs ≡ ok after
    → update_row key_of_job c.run_id (holds c) change jobs ≡ some after
unfolding finish_lease
finish_lease-ok c change jobs h0 =
    let (_, _, h1) = >>=-eq-ok (throw_if (not (is_worker_id c.lease_owner)) bad_worker_id) _ h0 in
    let (_, _, h2) =
      >>=-eq-ok (throw_if (length c.run_id == 0 || ltb c.attempt 1) bad_claim) _ h1 in
    affected-ok (update_row key_of_job c.run_id (holds c) change jobs) h2

-- After a claim, a claim of the same job that was made before, by another worker or for another
-- attempt, can no longer be finished: whoever finishes the job holds the newest claim's worker id
-- and attempt. This holds for every way to finish that keeps the run id of the row.
pub finish_lease-newest :
    (worker : Text) (seconds now : ℕ) (jobs after : Jobs) (newest old : ClaimedJob)
    (change : Job → Job) (last : Jobs)
    → ((x : Job) → (change x).run_id ≡ x.run_id)
    → claim_next worker seconds now jobs ≡ ok (some newest, after)
    → old.run_id ≡ newest.run_id
    → finish_lease old change after ≡ ok last
    → (old.lease_owner ≡ newest.lease_owner) × (old.attempt ≡ newest.attempt)
finish_lease-newest worker seconds now jobs after newest old change last keeps claim same_id done =
    let c = claim_next-IsClaim worker seconds now jobs claim in
    let (r, found, met, row) =
      update_row_found key_of_job (holds old) change keeps old.run_id after
        (finish_lease-ok old change after done) in
    let same : claimed worker now c.job ≡ r =
      some-injective
        (sym c.row ∙ subst (λ i. find_row key_of_job i after ≡ some r) same_id found) in
    let held : holds old (claimed worker now c.job) ≡ true =
      subst (λ x. holds old x ≡ true) (sym same) met in
    let owner : text_eq worker old.lease_owner ≡ true = ground (arith, held) in
    let attempt : (claimed worker now c.job).attempts ≡ old.attempt = ground (arith, held) in
    (
      sym ((text_eq_iff worker old.lease_owner).0 owner) ∙ ap (λ x. x.lease_owner) (sym c.claim),
      sym attempt ∙ ap (λ x. x.attempt) (sym c.claim),
    )
