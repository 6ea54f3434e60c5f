-- ===== src/PaymentJobs/Jobs.antt =====
-- The rows of the queue of reconciliation jobs, and the texts that it accepts:
-- packages/persistence-postgres/src/payment-job-queue.ts. An instant is counted in milliseconds.
use ship_yard.Prelude.{
  ℕ, Bool, true, ◌&&◌, ◌||◌, Option, List, [], ◌∷◌, Text, all_units, length, leb, ◌==◌,
}

pub data JobStatus : Type 0 where
  pending processing retry_scheduled completed dead_letter : JobStatus

abbrev pub job_status_index : JobStatus → ℕ
job_status_index pending = 0
job_status_index processing = 1
job_status_index retry_scheduled = 2
job_status_index completed = 3
job_status_index dead_letter = 4

-- `=` on the status column
abbrev pub has_job_status : JobStatus → JobStatus → Bool
has_job_status a b = job_status_index a == job_status_index b

-- A row of `payment_reconciliation_jobs`, less its `updated_at`, which nothing reads.
pub record Job : Type 0 where
  pub run_id : Text
  pub status : JobStatus
  pub attempts : ℕ
  pub maximum_attempts : ℕ
  pub available_at : ℕ
  pub created_at : ℕ
  pub locked_at : Option ℕ
  pub locked_by : Option Text
  pub last_error_code : Option Text
  pub failure_codes : Option (List Text)
  pub completed_at : Option ℕ

pub record ClaimedJob : Type 0 where
  pub run_id : Text
  pub attempt : ℕ
  pub maximum_attempts : ℕ
  pub lease_owner : Text

pub data QueueError : Type 0 where
  bad_worker_id bad_lease_duration bad_error_code bad_delay bad_claim lease_conflict : QueueError

abbrev pub Jobs : Type 0
Jobs = List Job

abbrev pub key_of_job : Job → Text
key_of_job job = job.run_id

-- /^[a-zA-Z0-9:_-]{1,200}$/
abbrev pub is_worker_unit : ℕ → Bool
is_worker_unit c =
    (leb b'a' c && leb c b'z')
    || (leb b'A' c && leb c b'Z')
    || (leb b'0' c && leb c b'9')
    || c == b':'
    || c == b'_'
    || c == b'-'

unfoldable pub is_worker_id : Text → Bool
is_worker_id value =
    leb 1 (length value) && leb (length value) 200 && all_units is_worker_unit value

-- /^[A-Z0-9_]{1,100}$/
abbrev pub is_code_unit : ℕ → Bool
is_code_unit c = (leb b'A' c && leb c b'Z') || (leb b'0' c && leb c b'9') || c == b'_'

unfoldable pub is_error_code : Text → Bool
is_error_code value = leb 1 (length value) && leb (length value) 100 && all_units is_code_unit value

abbrev pub all_error_codes : List Text → Bool
all_error_codes [] = true
all_error_codes (c ∷ cs) = is_error_code c && all_error_codes cs
