-- ===== src/Reconciliation/Store.antt =====
-- The rows that reconciliation reads and writes, and the two commits on them.
use ship_yard.Prelude.{
  ℕ, Bool, ◌&&◌, ◌||◌, Option, none, some, List, [], ◌∷◌, ◌++◌, Text, includes, ◌==◌, if◌then◌else◌,
  Result, ok, err,
}
use ship_yard.Table.{find_row, update_row}
use ship_yard.Run.{
  RunAggregate, RunTransitionedEvent, RunStatus, draft, quoted, payment_required, funded, expired,
  same_status,
}
use ship_yard.Quote.{Quote}
use ship_yard.Settlement.{MerchantOrder, MerchantPaymentProof, TransactionReceipt}

pub record VerifiedCustomerPayment : Type 0 where
  pub run_id : Text
  pub order : MerchantOrder
  pub proof : MerchantPaymentProof
  pub receipt : TransactionReceipt
  pub proof_hash : Text
  pub verified_at : Text

-- A run joined with its quote, its payment order and its receipt.
pub record FundableRun : Type 0 where
  pub run : RunAggregate
  pub quote : Quote
  pub payment_order : MerchantOrder
  pub customer_payment_proof_hash : Option Text
  pub customer_payment : Option VerifiedCustomerPayment

-- The tables: `runs` with what they are joined to, `run_events`, `outbox_events` and
-- `orchestrator_jobs`.
pub record Store : Type 0 where
  pub rows : List FundableRun
  pub run_events : List RunTransitionedEvent
  pub outbox_events : List RunTransitionedEvent
  pub orchestrator_jobs : List Text

pub record ExpiredCommit : Type 0 where
  pub previous_revision : ℕ
  pub run : RunAggregate
  pub event : RunTransitionedEvent

pub record FundedCommit : Type 0 where
  pub previous_revision : ℕ
  pub run : RunAggregate
  pub event : RunTransitionedEvent
  pub payment : VerifiedCustomerPayment

pub data StoreError : Type 0 where
  revision_conflict : StoreError

-- The primary key of `runs`.
abbrev pub key_of : FundableRun → Text
key_of row = row.run.id

-- `loadFundableRun`
abbrev pub load_fundable_run : Text → Store → Option FundableRun
load_fundable_run id store = find_row key_of id store.rows

-- The columns of `runs` that both commits set, and the key that `run_events` adds.
abbrev pub moved_run : RunStatus → RunAggregate → RunTransitionedEvent → RunAggregate → RunAggregate
moved_run status next event old = record old {
  status = status;
  revision = next.revision;
  updated_at = next.updated_at;
  applied_idempotency_keys = old.applied_idempotency_keys ++ event.idempotency_key ∷ [];
}

-- `revision = $4 AND status IN ('DRAFT', 'QUOTED', 'PAYMENT_REQUIRED')`
abbrev pub may_expire : ℕ → FundableRun → Bool
may_expire revision row =
    row.run.revision == revision
    && (same_status row.run.status draft
        || same_status row.run.status quoted
        || same_status row.run.status payment_required)

-- `revision = $6 AND status = 'PAYMENT_REQUIRED'`
abbrev pub may_fund : ℕ → FundableRun → Bool
may_fund revision row = row.run.revision == revision && same_status row.run.status payment_required

abbrev pub set_expired : ExpiredCommit → FundableRun → FundableRun
set_expired input row = record row { run = moved_run expired input.run input.event row.run }

abbrev pub set_funded : FundedCommit → FundableRun → FundableRun
set_funded input row = record row {
  run = moved_run funded input.run input.event row.run;
  payment_order = input.payment.order;
  customer_payment_proof_hash = some input.payment.proof_hash;
  customer_payment = some input.payment;
}

-- `INSERT ... ON CONFLICT (run_id) DO NOTHING`
abbrev pub enqueue : Text → List Text → List Text
enqueue id jobs = if includes jobs id then jobs else jobs ++ id ∷ []

abbrev pub expired_store :
    ExpiredCommit → Store → Option (List FundableRun) → Result StoreError Store
expired_store input store none = err revision_conflict
expired_store input store (some rows) = ok (record store {
  rows = rows;
  run_events = store.run_events ++ input.event ∷ [];
  outbox_events = store.outbox_events ++ input.event ∷ [];
})

-- `commitExpiredRun`: one transaction, rolled back where the guarded update affects no row.
unfoldable pub commit_expired_run : ExpiredCommit → Store → Result StoreError Store
commit_expired_run input store = expired_store input store (
    update_row key_of input.run.id (may_expire input.previous_revision) (set_expired input)
      store.rows)

abbrev pub funded_store : FundedCommit → Store → Option (List FundableRun) → Result StoreError Store
funded_store input store none = err revision_conflict
funded_store input store (some rows) = ok (record store {
  rows = rows;
  run_events = store.run_events ++ input.event ∷ [];
  outbox_events = store.outbox_events ++ input.event ∷ [];
  orchestrator_jobs = enqueue input.run.id store.orchestrator_jobs;
})

-- `commitFundedRun`, likewise.
unfoldable pub commit_funded_run : FundedCommit → Store → Result StoreError Store
commit_funded_run input store = funded_store input store (
    update_row key_of input.run.id (may_fund input.previous_revision) (set_funded input) store.rows)
