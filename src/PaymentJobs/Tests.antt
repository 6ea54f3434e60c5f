-- ===== src/PaymentJobs/Tests.antt =====
-- A job that is claimed, handled and marked, and one that is claimed again.
use ship_yard.Prelude.{
  false, ◌⊎◌, length, ◌==◌, err, ◌≡◌, refl, true, Bool, none, some, [], ◌∷◌, All, codes, text_eq,
  same_folded, to_lower, includes, unique, unseen, has, ok, lt_wf, dec_lt, arith,
}
use ship_yard.Dates.{sample_dates}
use ship_yard.Money.{to_string}
use ship_yard.Table.{find_row, update_row}
use ship_yard.Run.{same_status, transition_run, check_command, permits, find_rule, has_actor}
use ship_yard.Settlement.{
  find_log, same_address, matches_transfer, matches_transfer_log, settlement_failures,
  verify_settlement,
}
use ship_yard.Settlement.Samples.{plain}
use ship_yard.Reconciliation.Store.{Store, commit_funded_run, commit_expired_run}
use ship_yard.Reconciliation.Reconciler.{
  order_expired, ReconcileError, funding_of, reconcile_loaded, reconcile, expire, expire_run,
}
use ship_yard.Reconciliation.Samples.{store, paid_store, ports, no_hash, payment}
use ship_yard.PaymentJobs.Jobs.{
  Job, Jobs, ClaimedJob, pending, key_of_job, is_worker_id, is_error_code,
}
use ship_yard.PaymentJobs.Queue.{
  bury, is_claimable, candidate, claimed, claim_next, finish_lease, set_completed, mark_completed,
  mark_retry, mark_waiting, mark_dead_letter, rearm,
}
use ship_yard.PaymentJobs.Worker.{PaymentJobResult, ack, validate_job, retry_delay, handle, mark}
use ship_yard.PaymentJobs.Lease.{finish_lease-newest}
use ship_yard.PaymentJobs.Consistent.{IsSound, claims, Step-IsSound}
use ship_yard.PaymentJobs.Mark.{IsParked}
use ship_yard.PaymentJobs.Progress.{handle-IsParked, handle_returns}

abbrev waiting_job : Job
waiting_job = record {
  run_id = codes "run";
  status = pending;
  attempts = 0;
  maximum_attempts = 3;
  available_at = 10;
  created_at = 5;
  locked_at = none;
  locked_by = none;
  last_error_code = none;
  failure_codes = none;
  completed_at = none;
}

abbrev held_job : Job
held_job = claimed (codes "w1") 20 waiting_job

abbrev first_claim : ClaimedJob
first_claim = record {
  run_id = codes "run";
  attempt = 1;
  maximum_attempts = 3;
  lease_owner = codes "w1";
}

abbrev passing : ReconcileError → Bool
passing e = true

machine : Unit {0}
unfolding codes text_eq same_folded to_lower includes unique unseen has lt_wf dec_lt to_string
    same_status transition_run check_command permits find_rule has_actor find_log same_address
    matches_transfer matches_transfer_log settlement_failures verify_settlement find_row update_row
    commit_funded_run commit_expired_run funding_of reconcile_loaded reconcile expire expire_run
    bury is_claimable candidate claim_next finish_lease mark_completed mark_retry mark_waiting
    mark_dead_letter rearm is_worker_id is_error_code validate_job retry_delay handle mark
machine = tt

claims_first :
    claim_next (codes "w1") 60 20 (waiting_job ∷ []) ≡ ok (some first_claim, held_job ∷ [])
unfolding machine
claims_first = refl

-- The lease of a minute is over at 60020, and the reclaim keeps the attempt.
claims_again :
    claim_next (codes "w1") 60 60_020 (held_job ∷ [])
    ≡ ok (some first_claim, claimed (codes "w1") 60_020 held_job ∷ [])
unfolding machine
claims_again = refl

acknowledges :
    handle sample_dates plain no_hash ports passing first_claim 9 store
    ≡ ok (ack payment.proof_hash payment.proof.transaction_hash, paid_store)
unfolding machine
acknowledges = refl

finishes :
    finish_lease first_claim (set_completed 30) (held_job ∷ [])
    ≡ ok (set_completed 30 held_job ∷ [])
unfolding machine
finishes = refl

IsSound-waiting_job : IsSound waiting_job
IsSound-waiting_job = record { bounded = omega arith; leased = λ h. cc; free = λ h. (refl, refl) }

finish_lease-newest_example :
    (first_claim.lease_owner ≡ first_claim.lease_owner)
    × (first_claim.attempt ≡ first_claim.attempt)
finish_lease-newest_example =
    finish_lease-newest (codes "w1") 60 20 (waiting_job ∷ []) (held_job ∷ []) first_claim
      first_claim (set_completed 30) (set_completed 30 held_job ∷ []) (λ x. refl) claims_first refl
      finishes

Step-IsSound_example : All IsSound (held_job ∷ [])
Step-IsSound_example =
    Step-IsSound (claims (codes "w1") 60 20 claims_first) (IsSound-waiting_job, tt)

handle-IsParked_example :
    (after : Jobs) × (mark first_claim
        (ack payment.proof_hash payment.proof.transaction_hash)
        30
        (held_job ∷ [])
      ≡ ok after)
    × ((x : Job) × (find_row key_of_job first_claim.run_id after ≡ some x) × IsParked x)
handle-IsParked_example =
    handle-IsParked sample_dates plain no_hash ports passing (codes "w1") 60 20 (waiting_job ∷ [])
      (held_job ∷ []) first_claim 9 30 store paid_store
      (ack payment.proof_hash payment.proof.transaction_hash) claims_first acknowledges

named : (length (codes "run") == 0) ≡ false
unfolding machine
named = refl

handle_returns_example :
    ((out : PaymentJobResult × Store) × (handle sample_dates plain no_hash ports passing first_claim
          9 store
        ≡ ok out))
    ⊎ ((reconcile sample_dates plain no_hash ports (codes "run") 9 store ≡ err order_expired)
        × ((e : ReconcileError) × (expire_run sample_dates (codes "run") 9 store ≡ err e)))
handle_returns_example =
    handle_returns sample_dates plain no_hash ports passing first_claim 9 store named (omega arith)
      (omega arith)
