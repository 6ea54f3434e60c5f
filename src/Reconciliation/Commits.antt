-- ===== src/Reconciliation/Commits.antt =====
-- What the two commits of the store leave, and when they conflict.
use ship_yard.Prelude.{◌+◌, ◌≡◌, inl, inr, refl, arith, true, false, some, Option-cases, ok, err}
use ship_yard.Table.{find_row, update_row}
use ship_yard.Reconciliation.Store.{
  FundableRun, Store, FundedCommit, ExpiredCommit, revision_conflict, may_fund, may_expire,
  set_funded, set_expired, commit_funded_run, commit_expired_run, key_of,
}
use ship_yard.Table.{update_row_found, update_row_stale}

-- A commit of a funding leaves the run's row funded.
pub commit_funded_run_lem :
    (input : FundedCommit) (store : Store) {after : Store}
    → commit_funded_run input store ≡ ok after
    → (r : FundableRun) × (find_row key_of input.run.id store.rows ≡ some r)
      × (may_fund input.previous_revision r ≡ true)
      × (find_row key_of input.run.id after.rows ≡ some (set_funded input r))
unfolding commit_funded_run
commit_funded_run_lem input store {after} h =
    elim (Option-cases (
      update_row key_of input.run.id (may_fund input.previous_revision) (set_funded input)
        store.rows)) [
          | inl bad ↦ absurd (ground arith)
          | inr (rows, good) ↦
              let same : rows ≡ after.rows = ground arith in
              let (r, found, met, now) =
                update_row_found key_of (may_fund input.previous_revision) (set_funded input)
                  (λ x. refl) input.run.id store.rows good in
              (r, found, met, rw (← same) now)
        ]

pub commit_expired_run_lem :
    (input : ExpiredCommit) (store : Store) {after : Store}
    → commit_expired_run input store ≡ ok after
    → (r : FundableRun) × (find_row key_of input.run.id store.rows ≡ some r)
      × (may_expire input.previous_revision r ≡ true)
      × (find_row key_of input.run.id after.rows ≡ some (set_expired input r))
unfolding commit_expired_run
commit_expired_run_lem input store {after} h =
    elim (Option-cases (
      update_row key_of input.run.id (may_expire input.previous_revision) (set_expired input)
        store.rows)) [
          | inl bad ↦ absurd (ground arith)
          | inr (rows, good) ↦
              let same : rows ≡ after.rows = ground arith in
              let (r, found, met, now) =
                update_row_found key_of (may_expire input.previous_revision) (set_expired input)
                  (λ x. refl) input.run.id store.rows good in
              (r, found, met, rw (← same) now)
        ]

-- A commit at a revision that the run's row is past conflicts.
pub commit_expired_run_stale :
    (input : ExpiredCommit) (store : Store) {r : FundableRun}
    → find_row key_of input.run.id store.rows ≡ some r
    → r.run.revision ≡ input.previous_revision + 1
    → commit_expired_run input store ≡ err revision_conflict
unfolding commit_expired_run
commit_expired_run_stale input store {r} found past =
    let failed : may_expire input.previous_revision r ≡ false = ground (arith, past) in
    rw
      (update_row_stale key_of (may_expire input.previous_revision) (set_expired input) (λ x. refl)
        input.run.id store.rows found failed)
      refl

pub commit_funded_run_stale :
    (input : FundedCommit) (store : Store) {r : FundableRun}
    → find_row key_of input.run.id store.rows ≡ some r
    → r.run.revision ≡ input.previous_revision + 1
    → commit_funded_run input store ≡ err revision_conflict
unfolding commit_funded_run
commit_funded_run_stale input store {r} found past =
    let failed : may_fund input.previous_revision r ≡ false = ground (arith, past) in
    rw
      (update_row_stale key_of (may_fund input.previous_revision) (set_funded input) (λ x. refl)
        input.run.id store.rows found failed)
      refl
