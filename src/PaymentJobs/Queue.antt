-- ===== src/PaymentJobs/Queue.antt =====
-- `PostgresPaymentReconciliationJobQueue`: each operation is one statement on the table of jobs.
-- A NULL column is `none`, and a comparison with it is false.
use ship_yard.Prelude.{
  codes, ℕ, ◌+◌, ◌-◌, ◌*◌, Bool, false, not, ◌&&◌, ◌||◌, Option, none, some, List, [], ◌∷◌, map,
  Text, text_eq, length, ltb, leb, ◌==◌, if◌then◌else◌, Result, ok, err, ◌>>◌, throw_if,
}
use ship_yard.Table.{find_row, update_row}
use ship_yard.PaymentJobs.Jobs.{
  ClaimedJob, Job, Jobs, QueueError, all_error_codes, bad_claim, bad_delay, bad_error_code,
  bad_lease_duration, bad_worker_id, completed, dead_letter, has_job_status, is_error_code,
  is_worker_id, key_of_job, lease_conflict, pending, processing, retry_scheduled,
}

-- `locked_at <= now() - make_interval(secs => seconds)`
abbrev pub is_stale : ℕ → ℕ → Option ℕ → Bool
is_stale seconds now none = false
is_stale seconds now (some locked) = leb (locked + seconds * 1000) now

-- `locked_by = worker`
abbrev pub is_owner : Option Text → Text → Bool
is_owner none worker = false
is_owner (some owner) worker = text_eq owner worker

-- The first statement of `claimNext`, on one row: a stale lease without attempts left is dead.
unfoldable pub bury : ℕ → ℕ → Job → Job
bury seconds now job =
    if has_job_status job.status processing
      && is_stale seconds now job.locked_at
      && leb job.maximum_attempts job.attempts
    then record job {
      status = dead_letter;
      locked_at = none;
      locked_by = none;
      last_error_code = some (codes "STALE_LEASE_ATTEMPTS_EXHAUSTED");
    }
    else job

-- The WHERE of the candidates.
unfoldable pub is_claimable : ℕ → ℕ → Job → Bool
is_claimable seconds now job =
    ((has_job_status job.status pending || has_job_status job.status retry_scheduled)
      && leb job.available_at now
      && ltb job.attempts job.maximum_attempts)
    || (has_job_status job.status processing
        && is_stale seconds now job.locked_at
        && ltb job.attempts job.maximum_attempts)

-- `ORDER BY available_at, created_at`
abbrev pub comes_before : Job → Job → Bool
comes_before a b =
    ltb a.available_at b.available_at
    || (a.available_at == b.available_at && ltb a.created_at b.created_at)

abbrev pub earlier : Job → Option Job → Option Job
earlier job none = some job
earlier job (some other) = if comes_before other job then some other else some job

-- The candidate: the first claimable row in that order.
unfoldable pub candidate : ℕ → ℕ → Jobs → Option Job
candidate seconds now [] = none
candidate seconds now (job ∷ jobs) =
    let rest = candidate seconds now jobs in
    if is_claimable seconds now job then earlier job rest else rest

-- The SET of the claim; the reclaim of a stale lease keeps the attempts.
abbrev pub claimed : Text → ℕ → Job → Job
claimed worker now job = record job {
  status = processing;
  attempts = job.attempts + (if has_job_status job.status processing then 0 else 1);
  locked_at = some now;
  locked_by = some worker;
}

abbrev pub claim_of : Text → Job → ClaimedJob
claim_of worker job = record {
  run_id = job.run_id;
  attempt = job.attempts;
  maximum_attempts = job.maximum_attempts;
  lease_owner = worker;
}

abbrev pub or_same : Jobs → Option Jobs → Jobs
or_same jobs none = jobs
or_same jobs (some next) = next

-- `RETURNING job.*`
abbrev pub returned : Text → Option Job → Option ClaimedJob
returned worker none = none
returned worker (some job) = some (claim_of worker job)

abbrev pub returning : Text → Text → Jobs → Option Jobs → Option ClaimedJob × Jobs
returning worker run_id jobs none = (none, jobs)
returning worker run_id jobs (some next) = (returned worker (find_row key_of_job run_id next), next)

-- The second statement of `claimNext`. The candidate's row is locked until it is updated, so it is
-- still claimable then.
abbrev pub take : Text → ℕ → ℕ → Jobs → Option Job → Option ClaimedJob × Jobs
take worker seconds now jobs none = (none, jobs)
take worker seconds now jobs (some job) =
    returning worker job.run_id jobs
      (update_row key_of_job job.run_id (is_claimable seconds now) (claimed worker now) jobs)

-- `claimNext`
unfoldable pub claim_next : Text → ℕ → ℕ → Jobs → Result QueueError (Option ClaimedJob × Jobs)
unfolding is_worker_id
claim_next worker seconds now jobs = do
  throw_if (not (is_worker_id worker)) bad_worker_id
  throw_if (ltb seconds 5 || ltb 600 seconds) bad_lease_duration
  let swept = map (bury seconds now) jobs
  ok (take worker seconds now swept (candidate seconds now swept))

-- `status = 'PROCESSING' AND locked_by = $2 AND attempts = $3`
abbrev pub holds : ClaimedJob → Job → Bool
holds claim job =
    has_job_status job.status processing
    && is_owner job.locked_by claim.lease_owner
    && job.attempts == claim.attempt

abbrev pub affected : Option Jobs → Result QueueError Jobs
affected none = err lease_conflict
affected (some jobs) = ok jobs

-- `#finishLease`
unfoldable pub finish_lease : ClaimedJob → (Job → Job) → Jobs → Result QueueError Jobs
unfolding is_worker_id
finish_lease claim change jobs = do
  throw_if (not (is_worker_id claim.lease_owner)) bad_worker_id
  throw_if (length claim.run_id == 0 || ltb claim.attempt 1) bad_claim
  affected (update_row key_of_job claim.run_id (holds claim) change jobs)

abbrev pub set_completed : ℕ → Job → Job
set_completed now job = record job {
  status = completed;
  locked_at = none;
  locked_by = none;
  last_error_code = none;
  failure_codes = none;
  completed_at = some now;
}

-- `markCompleted`
unfoldable pub mark_completed : ClaimedJob → ℕ → Jobs → Result QueueError Jobs
mark_completed claim now jobs = finish_lease claim (set_completed now) jobs

abbrev pub set_retry : ℕ → Text → ℕ → Job → Job
set_retry delay reason now job = record job {
  status = retry_scheduled;
  locked_at = none;
  locked_by = none;
  available_at = now + delay;
  last_error_code = some reason;
  failure_codes = none;
}

-- `markRetry`
unfoldable pub mark_retry : ClaimedJob → ℕ → Text → ℕ → Jobs → Result QueueError Jobs
unfolding is_error_code
mark_retry claim delay reason now jobs = do
  throw_if (not (is_error_code reason)) bad_error_code
  throw_if (ltb 3_600_000 delay) bad_delay
  finish_lease claim (set_retry delay reason now) jobs

-- `GREATEST(attempts - 1, 0)`: the subtraction stops at zero.
abbrev pub set_waiting : ℕ → Text → ℕ → Job → Job
set_waiting delay reason now job = record (set_retry delay reason now job) {
  attempts = job.attempts - 1;
}

-- `markWaiting`
unfoldable pub mark_waiting : ClaimedJob → ℕ → Text → ℕ → Jobs → Result QueueError Jobs
unfolding is_error_code
mark_waiting claim delay reason now jobs = do
  throw_if (not (is_error_code reason)) bad_error_code
  throw_if (ltb 3_600_000 delay) bad_delay
  finish_lease claim (set_waiting delay reason now) jobs

abbrev pub set_dead : Text → List Text → Job → Job
set_dead reason failures job = record job {
  status = dead_letter;
  locked_at = none;
  locked_by = none;
  last_error_code = some reason;
  failure_codes = some failures;
}

-- `markDeadLetter`
unfoldable pub mark_dead_letter : ClaimedJob → Text → List Text → Jobs → Result QueueError Jobs
unfolding is_error_code
mark_dead_letter claim reason failures jobs = do
  throw_if (not (is_error_code reason)) bad_error_code
  throw_if (not (all_error_codes failures)) bad_error_code
  finish_lease claim (set_dead reason failures) jobs

abbrev pub is_dead : Job → Bool
is_dead job = has_job_status job.status dead_letter

abbrev pub set_rearmed : ℕ → Job → Job
set_rearmed now job = record job {
  status = pending;
  attempts = 0;
  available_at = now;
  locked_at = none;
  locked_by = none;
  last_error_code = none;
  failure_codes = none;
  completed_at = none;
}

-- `rearm`: no row or one is affected, since the run id is the key.
unfoldable pub rearm : Text → ℕ → Jobs → Jobs
rearm run_id now jobs = or_same jobs (update_row key_of_job run_id is_dead (set_rearmed now) jobs)
