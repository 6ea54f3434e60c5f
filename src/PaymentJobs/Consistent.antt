-- ===== src/PaymentJobs/Consistent.antt =====
-- The operations of the queue as steps on the table, and what every row keeps.
use ship_yard.Prelude.{
  ◌↔◌, ◌&&◌, ℕ, ◌≡◌, ◌≤◌, ◌<◌, refl, ap, subst, arith, true, ◌||◌, not, none, some, Option,
  Option-cases, Bool-cases, inl, inr, List, [], ◌∷◌, map, Text, All, ltb, leb, ok, >>=-eq-ok,
  ok-injective, throw_if,
}
use ship_yard.Table.{update_row, update_row-All}
use ship_yard.PaymentJobs.Jobs.{
  Job, Jobs, ClaimedJob, JobStatus, processing, has_job_status, key_of_job, is_error_code,
  all_error_codes, bad_error_code, bad_delay, is_worker_id, bad_worker_id, bad_lease_duration,
}
use ship_yard.PaymentJobs.Queue.{
  is_stale, bury, is_claimable, candidate, claimed, take, claim_next, holds, finish_lease,
  mark_completed, mark_retry, mark_waiting, mark_dead_letter, rearm, set_completed, set_retry,
  set_waiting, set_dead, set_rearmed, is_dead,
}
use ship_yard.PaymentJobs.Lease.{finish_lease-ok}

-- A row never counts more attempts than it is allowed, and it is locked exactly while a worker
-- processes it, which is never its zeroth attempt.
pub record IsSound (job : Job) : Type 0 where
  pub bounded : job.attempts ≤ job.maximum_attempts
  pub leased :
      job.status ≡ processing
      → (0 < job.attempts)
        × ((at : ℕ) × (job.locked_at ≡ some at))
        × ((owner : Text) × (job.locked_by ≡ some owner))
  pub free : ¬ (job.status ≡ processing) → (job.locked_at ≡ none) × (job.locked_by ≡ none)

pub data Step : Jobs → Jobs → Type 0 where
  claims :
      {jobs after : Jobs} (worker : Text) (seconds now : ℕ) {c : Option ClaimedJob}
      → claim_next worker seconds now jobs ≡ ok (c, after)
      → Step jobs after
  completes :
      {jobs after : Jobs} (c : ClaimedJob) (now : ℕ)
      → mark_completed c now jobs ≡ ok after
      → Step jobs after
  retries :
      {jobs after : Jobs} (c : ClaimedJob) (delay : ℕ) (reason : Text) (now : ℕ)
      → mark_retry c delay reason now jobs ≡ ok after
      → Step jobs after
  waits :
      {jobs after : Jobs} (c : ClaimedJob) (delay : ℕ) (reason : Text) (now : ℕ)
      → mark_waiting c delay reason now jobs ≡ ok after
      → Step jobs after
  dies :
      {jobs after : Jobs} (c : ClaimedJob) (reason : Text) (failures : List Text)
      → mark_dead_letter c reason failures jobs ≡ ok after
      → Step jobs after
  rearms : {jobs : Jobs} (run_id : Text) (now : ℕ) → Step jobs (rearm run_id now jobs)

-- A row that is not processed and not locked is sound if its attempts are bounded.
idle :
    (job : Job)
    → job.attempts ≤ job.maximum_attempts
    → ¬ (job.status ≡ processing)
    → job.locked_at ≡ none
    → job.locked_by ≡ none
    → IsSound job
idle job bounded other at owner = record {
  bounded = bounded;
  leased = λ h. absurd (other h);
  free = λ _. (at, owner);
}

has_job_status_iff : (s t : JobStatus) → (has_job_status s t ≡ true) ↔ (s ≡ t)
has_job_status_iff s t = ground (arith, s, t)

claimed-IsSound :
    (worker : Text) (seconds now : ℕ) (x : Job)
    → IsSound x
    → is_claimable seconds now x ≡ true
    → IsSound (claimed worker now x)
unfolding is_claimable
claimed-IsSound worker seconds now x s h =
    let attempted : 0 < (claimed worker now x).attempts =
      elim (Bool-cases (has_job_status x.status processing)) [
        | inl old ↦
            rw old (omega (arith, (s.leased ((has_job_status_iff x.status processing).0 old)).0))
        | inr new ↦ rw new (omega arith)
      ] in
    record {
      bounded = ground (arith, s.bounded, h);
      leased = λ _. (attempted, (now, refl), (worker, refl));
      free = λ other. absurd (other refl);
    }

bury-IsSound : (seconds now : ℕ) (x : Job) → IsSound x → IsSound (bury seconds now x)
unfolding bury
bury-IsSound seconds now x s =
    elim (Bool-cases (
      has_job_status x.status processing
      && is_stale seconds now x.locked_at
      && leb x.maximum_attempts x.attempts)) [
        | inl gone ↦ rw gone (idle _ s.bounded (λ e. cc) refl refl)
        | inr kept ↦ rw kept s
      ]

swept-IsSound :
    (seconds now : ℕ) (jobs : Jobs) → All IsSound jobs → All IsSound (map (bury seconds now) jobs)
swept-IsSound seconds now [] h = tt
swept-IsSound seconds now (x ∷ jobs) h =
    (bury-IsSound seconds now x (h.0), swept-IsSound seconds now jobs (h.1))

take-IsSound :
    (worker : Text) (seconds now : ℕ) (jobs : Jobs) (o : Option Job)
    → All IsSound jobs
    → All IsSound (take worker seconds now jobs o).1
take-IsSound worker seconds now jobs none h = h
take-IsSound worker seconds now jobs (some job) h =
    elim (Option-cases
      (update_row key_of_job job.run_id (is_claimable seconds now) (claimed worker now) jobs)) [
        | inl bad ↦ rw bad h
        | inr (next, good) ↦ rw good (
            update_row-All key_of_job (is_claimable seconds now) (claimed worker now) (λ x. refl)
              IsSound (claimed-IsSound worker seconds now) job.run_id jobs h good)
      ]

-- A finished lease keeps the rows sound if its change leaves a sound row.
finish_lease-IsSound :
    (c : ClaimedJob) (change : Job → Job) (jobs : Jobs) {after : Jobs}
    → ((x : Job) → (change x).run_id ≡ x.run_id)
    → ((x : Job) → IsSound x → IsSound (change x))
    → All IsSound jobs
    → finish_lease c change jobs ≡ ok after
    → All IsSound after
finish_lease-IsSound c change jobs keeps step h done =
    update_row-All key_of_job (holds c) change keeps IsSound (λ x s met. step x s) c.run_id jobs h
      (finish_lease-ok c change jobs done)

rearm-IsSound :
    (run_id : Text) (now : ℕ) (jobs : Jobs) → All IsSound jobs → All IsSound (rearm run_id now jobs)
unfolding rearm
rearm-IsSound run_id now jobs h =
    elim (Option-cases (update_row key_of_job run_id is_dead (set_rearmed now) jobs)) [
      | inl bad ↦ rw bad h
      | inr (next, good) ↦ rw good (
          update_row-All key_of_job is_dead (set_rearmed now) (λ x. refl) IsSound
            (λ x s met. idle _ (omega arith) (λ e. cc) refl refl) run_id jobs h good)
    ]

-- Every operation of the queue keeps every row sound: attempts within their maximum, and a lock held
-- exactly while the job is processed.
pub Step-IsSound : {jobs after : Jobs} → Step jobs after → All IsSound jobs → All IsSound after
unfolding claim_next mark_completed mark_retry mark_waiting mark_dead_letter
Step-IsSound {jobs} (claims worker seconds now call) h =
    let (_, _, h1) = >>=-eq-ok (throw_if (not (is_worker_id worker)) bad_worker_id) _ call in
    let (_, _, h2) =
      >>=-eq-ok (throw_if (ltb seconds 5 || ltb 600 seconds) bad_lease_duration) _ h1 in
    let swept = map (bury seconds now) jobs in
    subst (All IsSound) (ap (λ o. o.1) (ok-injective h2)) (
      take-IsSound worker seconds now swept (candidate seconds now swept)
        (swept-IsSound seconds now jobs h))
Step-IsSound {jobs} (completes c now call) h =
    finish_lease-IsSound c (set_completed now) jobs (λ x. refl)
      (λ x s. idle _ s.bounded (λ e. cc) refl refl) h call
Step-IsSound {jobs} (retries c delay reason now call) h =
    let (_, _, h1) = >>=-eq-ok (throw_if (not (is_error_code reason)) bad_error_code) _ call in
    let (_, _, h2) = >>=-eq-ok (throw_if (ltb 3_600_000 delay) bad_delay) _ h1 in
    finish_lease-IsSound c (set_retry delay reason now) jobs (λ x. refl)
      (λ x s. idle _ s.bounded (λ e. cc) refl refl) h h2
Step-IsSound {jobs} (waits c delay reason now call) h =
    let (_, _, h1) = >>=-eq-ok (throw_if (not (is_error_code reason)) bad_error_code) _ call in
    let (_, _, h2) = >>=-eq-ok (throw_if (ltb 3_600_000 delay) bad_delay) _ h1 in
    finish_lease-IsSound c (set_waiting delay reason now) jobs (λ x. refl)
      (λ x s. idle _ (omega (arith, s.bounded)) (λ e. cc) refl refl) h h2
Step-IsSound {jobs} (dies c reason failures call) h =
    let (_, _, h1) = >>=-eq-ok (throw_if (not (is_error_code reason)) bad_error_code) _ call in
    let (_, _, h2) = >>=-eq-ok (throw_if (not (all_error_codes failures)) bad_error_code) _ h1 in
    finish_lease-IsSound c (set_dead reason failures) jobs (λ x. refl)
      (λ x s. idle _ s.bounded (λ e. cc) refl refl) h h2
Step-IsSound {jobs} (rearms run_id now) h = rearm-IsSound run_id now jobs h
