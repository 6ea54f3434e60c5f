-- ===== src/PaymentJobs/Mark.antt =====
-- What the queue makes of a result.
use ship_yard.Prelude.{
  ℕ, ◌-◌, ◌≡◌, ◌≤◌, ◌<◌, ◌⊎◌, inl, inr, refl, sym, ap, ◌∙◌, arith, Bool, true, false, some, List,
  [], ◌∷◌, map, codes, length, ◌==◌, ok, some-injective,
}
use native.Mathlib.Nat.{one-le-pow}
use ship_yard.Table.{find_row, update_row_found, update_row_hit}
use ship_yard.Settlement.{FailureCode}
use ship_yard.PaymentJobs.Jobs.{
  Job, Jobs, ClaimedJob, completed, dead_letter, retry_scheduled, key_of_job, is_error_code,
  all_error_codes, is_worker_id,
}
use ship_yard.PaymentJobs.Queue.{
  holds, finish_lease, mark_completed, mark_retry, mark_waiting, mark_dead_letter, set_completed,
  set_retry, set_waiting, set_dead,
}
use ship_yard.PaymentJobs.Worker.{
  PaymentJobResult, ack, wait, retry, dead, resolved, code_text, retry_delay,
  classify_retryable_error, mark,
}

-- A row that no worker holds and that is either closed or due again with attempts left.
abbrev pub IsParked : Job → Type 0
IsParked job =
    (job.status ≡ completed)
    ⊎ ((job.status ≡ dead_letter)
        ⊎ ((job.status ≡ retry_scheduled) × (job.attempts < job.maximum_attempts)))

-- A delay is at least five seconds and at most thirty.
pub retry_delay_lem : (attempt : ℕ) → (5_000 ≤ retry_delay attempt) × (retry_delay attempt ≤ 30_000)
unfolding retry_delay
retry_delay_lem attempt = (ground (arith, one-le-pow (attempt - 1) 2 (omega arith)), ground arith)

code_text-is_error_code : (code : FailureCode) → is_error_code (code_text code) ≡ true
unfolding is_error_code codes
code_text-is_error_code code = ground (arith, code)

pub code_texts : (failures : List FailureCode) → all_error_codes (map code_text failures) ≡ true
code_texts [] = refl
code_texts (f ∷ fs) = rw (code_text-is_error_code f, code_texts fs) refl

pub retryable_code : (passing : Bool) → is_error_code (classify_retryable_error passing) ≡ true
unfolding is_error_code codes
retryable_code true = refl
retryable_code false = refl

pub rejection_code : is_error_code (codes "DETERMINISTIC_SETTLEMENT_REJECTION") ≡ true
unfolding is_error_code codes
rejection_code = refl

pub not_ready_code : is_error_code (codes "PAYMENT_NOT_READY") ≡ true
unfolding is_error_code codes
not_ready_code = refl

pub no_receipt_code : is_error_code (codes "RECEIPT_NOT_YET_AVAILABLE") ≡ true
unfolding is_error_code codes
no_receipt_code = refl

-- What a result must be for the queue to take it.
abbrev pub IsMarkable : ClaimedJob → PaymentJobResult → Type 0
IsMarkable job (ack hash transaction) = Unit
IsMarkable job (wait delay reason) = (is_error_code reason ≡ true) × (delay ≤ 3_600_000)
IsMarkable job (retry delay reason) =
    (is_error_code reason ≡ true) × (delay ≤ 3_600_000) × (job.attempt < job.maximum_attempts)
IsMarkable job (dead reason failures) =
    (is_error_code reason ≡ true) × (all_error_codes failures ≡ true)
IsMarkable job (resolved reason) = Unit

-- A finished lease on a row that is held.
finish_lease_lem :
    (c : ClaimedJob) (change : Job → Job) (jobs : Jobs) {r : Job}
    → ((x : Job) → (change x).run_id ≡ x.run_id)
    → is_worker_id c.lease_owner ≡ true
    → (length c.run_id == 0) ≡ false
    → 1 ≤ c.attempt
    → find_row key_of_job c.run_id jobs ≡ some r
    → holds c r ≡ true
    → (after : Jobs) × (finish_lease c change jobs ≡ ok after)
      × (find_row key_of_job c.run_id after ≡ some (change r))
unfolding finish_lease
finish_lease_lem c change jobs {r} keeps worker named attempt row held =
    let (after, good) = update_row_hit key_of_job (holds c) change keeps c.run_id jobs row held in
    let (x, found, met, now) =
      update_row_found key_of_job (holds c) change keeps c.run_id jobs good in
    let same : x ≡ r = some-injective (sym found ∙ row) in
    (after, ground (arith, worker, named, attempt, good), now ∙ ap (λ y. some (change y)) same)

-- The queue takes what it can mark, and leaves the row parked.
pub mark-IsParked :
    (job : ClaimedJob) (result : PaymentJobResult) (now : ℕ) (jobs : Jobs) {r : Job}
    → is_worker_id job.lease_owner ≡ true
    → (length job.run_id == 0) ≡ false
    → (1 ≤ job.attempt) × (job.attempt ≤ job.maximum_attempts)
    → (job.attempt ≡ r.attempts) × (job.maximum_attempts ≡ r.maximum_attempts)
    → IsMarkable job result
    → find_row key_of_job job.run_id jobs ≡ some r
    → holds job r ≡ true
    → (after : Jobs) × (mark job result now jobs ≡ ok after)
      × ((x : Job) × (find_row key_of_job job.run_id after ≡ some x) × IsParked x)
unfolding mark mark_completed mark_retry mark_waiting mark_dead_letter
mark-IsParked job (ack hash transaction) now jobs {r} worker named bounds figures can row held =
    let (after, done, left) =
      finish_lease_lem job (set_completed now) jobs (λ x. refl) worker named (bounds.0) row held in
    (after, done, (set_completed now r, left, inl refl))
mark-IsParked job (resolved reason) now jobs {r} worker named bounds figures can row held =
    let (after, done, left) =
      finish_lease_lem job (set_completed now) jobs (λ x. refl) worker named (bounds.0) row held in
    (after, done, (set_completed now r, left, inl refl))
mark-IsParked job (wait delay reason) now jobs {r} worker named bounds figures can row held =
    let (after, done, left) =
      finish_lease_lem job (set_waiting delay reason now) jobs (λ x. refl) worker named (bounds.0)
        row held in
    (
      after,
      ground (arith, done, can.0, can.1),
      (
        set_waiting delay reason now r,
        left,
        inr (inr (refl, omega (arith, bounds.0, bounds.1, figures.0, figures.1))),
      ),
    )
mark-IsParked job (retry delay reason) now jobs {r} worker named bounds figures can row held =
    let (after, done, left) =
      finish_lease_lem job (set_retry delay reason now) jobs (λ x. refl) worker named (bounds.0) row
        held in
    (
      after,
      ground (arith, done, can.0, can.1),
      (
        set_retry delay reason now r,
        left,
        inr (inr (refl, omega (arith, can.2, figures.0, figures.1))),
      ),
    )
mark-IsParked job (dead reason failures) now jobs {r} worker named bounds figures can row held =
    let (after, done, left) =
      finish_lease_lem job (set_dead reason failures) jobs (λ x. refl) worker named (bounds.0) row
        held in
    (after, ground (arith, done, can.0, can.1), (set_dead reason failures r, left, inr (inl refl)))
