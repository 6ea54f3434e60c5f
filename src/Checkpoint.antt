-- ===== src/Checkpoint.antt =====
-- packages/persistence-postgres/src/orchestrator-checkpoint-store.ts: what a run has done so far.
-- One row holds it; a JSON column is the value whose text it stores, a hash column its bytes.
pub mod Register
mod Tests
use ship_yard.Prelude.{ℕ, zero, suc, Option, none, some, List, [], ◌∷◌, ◌++◌, Text, codes}
use ship_yard.Plan.{RiskLevel, RiskClassification, CompiledTestPlan}
use ship_yard.Delivery.Scenario.{PaymentHeaderName, ReplayEvidence}

-- `ScenarioResult`
pub record ScenarioResult : Type 0 where
  pub evidence : ReplayEvidence
  pub chain_transaction_hash : Text

-- `OrchestratorRunCheckpoint`
pub record Checkpoint : Type 0 where
  pub plan : Option CompiledTestPlan
  pub proposal : Option RiskClassification
  pub payment_nonce : Option ℕ
  pub payment_transaction_hash : Option Text
  pub purchase_receipt : Option Text
  pub payment_header_name : Option PaymentHeaderName
  pub bridge_provider : Option Text
  pub bridge_transfer_id : Option Text
  pub bridge_source_transaction_hash : Option Text
  pub bridge_submitted_at : Option ℕ
  pub bridge_destination_transaction_hash : Option Text
  pub bridge_amount_received_atomic : Option Text
  pub target_payment_transaction_hash : Option Text
  pub target_payment_amount_atomic : Option Text
  pub evidence : Option (List ScenarioResult)
  pub started_at : Option ℕ
  pub completed_at : Option ℕ
  pub attestation_transaction_hash : Option Text
  pub refund_nonce : Option ℕ
  pub refund_transaction_hash : Option Text

-- A row of `orchestrator_run_checkpoints`, less its key and its `updated_at`.
pub record CheckpointRow : Type 0 where
  pub risk_level : Option RiskLevel
  pub scenarios : Option (List Text)
  pub tool_budget_atomic : Option Text
  pub rationale : Option Text
  pub ai_proposal : Option RiskClassification
  pub payment_nonce : Option ℕ
  pub payment_transaction_hash : Option Text
  pub purchase_receipt : Option Text
  pub payment_header_name : Option PaymentHeaderName
  pub bridge_provider : Option Text
  pub bridge_transfer_id : Option Text
  pub bridge_source_transaction_hash : Option Text
  pub bridge_submitted_at : Option ℕ
  pub bridge_destination_transaction_hash : Option Text
  pub bridge_amount_received_atomic : Option Text
  pub target_payment_transaction_hash : Option Text
  pub target_payment_amount_atomic : Option Text
  pub evidence : Option (List ScenarioResult)
  pub started_at : Option ℕ
  pub completed_at : Option ℕ
  pub attestation_transaction_hash : Option Text
  pub refund_nonce : Option ℕ
  pub refund_transaction_hash : Option Text

-- `EMPTY_CHECKPOINT`
abbrev pub empty_checkpoint : Checkpoint
empty_checkpoint = record {
  plan = none;
  proposal = none;
  payment_nonce = none;
  payment_transaction_hash = none;
  purchase_receipt = none;
  payment_header_name = none;
  bridge_provider = none;
  bridge_transfer_id = none;
  bridge_source_transaction_hash = none;
  bridge_submitted_at = none;
  bridge_destination_transaction_hash = none;
  bridge_amount_received_atomic = none;
  target_payment_transaction_hash = none;
  target_payment_amount_atomic = none;
  evidence = none;
  started_at = none;
  completed_at = none;
  attestation_transaction_hash = none;
  refund_nonce = none;
  refund_transaction_hash = none;
}

-- A text where `''` is falsy: none where it is empty.
abbrev pub truthy : Option Text → Option Text
truthy none = none
truthy (some []) = none
truthy (some (c ∷ s)) = some (c ∷ s)

abbrev pub map_option : {A B : Type 0} → (A → B) → Option A → Option B
map_option f none = none
map_option f (some a) = some (f a)

-- `COALESCE(old, new)`
abbrev pub coalesce : {A : Type 0} → Option A → Option A → Option A
coalesce none new = new
coalesce (some old) new = some old

-- `value.slice(2)`
abbrev pub behind_two : Text → Text
behind_two (a ∷ b ∷ s) = s
behind_two _ = []

-- Node's `Buffer`: its bytes from hexadecimal digits, and back.
pub record Buffers : Type 0 where
  pub from_hex : Text → Text
  pub to_hex : Text → Text

-- The plan that four columns hold.
abbrev pub plan_of :
    Option RiskLevel → Option (List Text) → Option Text → Option Text → Option CompiledTestPlan
plan_of (some risk_level) (some scenarios) (some budget) (some rationale) = some (record {
  scenarios = scenarios;
  tool_budget_atomic = budget;
  risk_level = risk_level;
  rationale = rationale;
})
plan_of _ _ _ _ = none

-- The `ON CONFLICT` of `merge`: every column keeps the value that landed first.
unfoldable pub coalesce_row : CheckpointRow → CheckpointRow → CheckpointRow
coalesce_row old new = record {
  risk_level = coalesce old.risk_level new.risk_level;
  scenarios = coalesce old.scenarios new.scenarios;
  tool_budget_atomic = coalesce old.tool_budget_atomic new.tool_budget_atomic;
  rationale = coalesce old.rationale new.rationale;
  ai_proposal = coalesce old.ai_proposal new.ai_proposal;
  payment_nonce = coalesce old.payment_nonce new.payment_nonce;
  payment_transaction_hash = coalesce old.payment_transaction_hash new.payment_transaction_hash;
  purchase_receipt = coalesce old.purchase_receipt new.purchase_receipt;
  payment_header_name = coalesce old.payment_header_name new.payment_header_name;
  bridge_provider = coalesce old.bridge_provider new.bridge_provider;
  bridge_transfer_id = coalesce old.bridge_transfer_id new.bridge_transfer_id;
  bridge_source_transaction_hash =
      coalesce old.bridge_source_transaction_hash new.bridge_source_transaction_hash;
  bridge_submitted_at = coalesce old.bridge_submitted_at new.bridge_submitted_at;
  bridge_destination_transaction_hash =
      coalesce old.bridge_destination_transaction_hash new.bridge_destination_transaction_hash;
  bridge_amount_received_atomic =
      coalesce old.bridge_amount_received_atomic new.bridge_amount_received_atomic;
  target_payment_transaction_hash =
      coalesce old.target_payment_transaction_hash new.target_payment_transaction_hash;
  target_payment_amount_atomic =
      coalesce old.target_payment_amount_atomic new.target_payment_amount_atomic;
  evidence = coalesce old.evidence new.evidence;
  started_at = coalesce old.started_at new.started_at;
  completed_at = coalesce old.completed_at new.completed_at;
  attestation_transaction_hash =
      coalesce old.attestation_transaction_hash new.attestation_transaction_hash;
  refund_nonce = coalesce old.refund_nonce new.refund_nonce;
  refund_transaction_hash = coalesce old.refund_transaction_hash new.refund_transaction_hash;
}

module _ (buffers : Buffers) where
  -- `patch.hash ? hexToBuffer(patch.hash) : null`
  abbrev pub hex_to_buffer : Option Text → Option Text
  hex_to_buffer hash = map_option (λ h. buffers.from_hex (behind_two h)) (truthy hash)

  -- `row.hash ? bufferToHex(row.hash) : {}`
  abbrev pub buffer_to_hex : Option Text → Option Text
  buffer_to_hex bytes = map_option (λ b. codes "0x" ++ buffers.to_hex b) bytes

  -- The VALUES of `merge`.
  unfoldable pub values : Checkpoint → CheckpointRow
  values patch = record {
    risk_level = map_option (λ plan. plan.risk_level) patch.plan;
    scenarios = map_option (λ plan. plan.scenarios) patch.plan;
    tool_budget_atomic = map_option (λ plan. plan.tool_budget_atomic) patch.plan;
    rationale = map_option (λ plan. plan.rationale) patch.plan;
    ai_proposal = patch.proposal;
    payment_nonce = patch.payment_nonce;
    payment_transaction_hash = hex_to_buffer patch.payment_transaction_hash;
    purchase_receipt = patch.purchase_receipt;
    payment_header_name = patch.payment_header_name;
    bridge_provider = patch.bridge_provider;
    bridge_transfer_id = patch.bridge_transfer_id;
    bridge_source_transaction_hash = hex_to_buffer patch.bridge_source_transaction_hash;
    bridge_submitted_at = patch.bridge_submitted_at;
    bridge_destination_transaction_hash = hex_to_buffer patch.bridge_destination_transaction_hash;
    bridge_amount_received_atomic = patch.bridge_amount_received_atomic;
    target_payment_transaction_hash = hex_to_buffer patch.target_payment_transaction_hash;
    target_payment_amount_atomic = patch.target_payment_amount_atomic;
    evidence = patch.evidence;
    started_at = patch.started_at;
    completed_at = patch.completed_at;
    attestation_transaction_hash = hex_to_buffer patch.attestation_transaction_hash;
    refund_nonce = patch.refund_nonce;
    refund_transaction_hash = hex_to_buffer patch.refund_transaction_hash;
  }

  -- `parseRow`
  unfoldable pub parse_row : CheckpointRow → Checkpoint
  parse_row row = record {
    plan = plan_of row.risk_level row.scenarios row.tool_budget_atomic (truthy row.rationale);
    proposal = row.ai_proposal;
    payment_nonce = row.payment_nonce;
    payment_transaction_hash = buffer_to_hex row.payment_transaction_hash;
    purchase_receipt = truthy row.purchase_receipt;
    payment_header_name = row.payment_header_name;
    bridge_provider = truthy row.bridge_provider;
    bridge_transfer_id = truthy row.bridge_transfer_id;
    bridge_source_transaction_hash = buffer_to_hex row.bridge_source_transaction_hash;
    bridge_submitted_at = row.bridge_submitted_at;
    bridge_destination_transaction_hash = buffer_to_hex row.bridge_destination_transaction_hash;
    bridge_amount_received_atomic = row.bridge_amount_received_atomic;
    target_payment_transaction_hash = buffer_to_hex row.target_payment_transaction_hash;
    target_payment_amount_atomic = row.target_payment_amount_atomic;
    evidence = row.evidence;
    started_at = row.started_at;
    completed_at = row.completed_at;
    attestation_transaction_hash = buffer_to_hex row.attestation_transaction_hash;
    refund_nonce = row.refund_nonce;
    refund_transaction_hash = buffer_to_hex row.refund_transaction_hash;
  }

  -- `load`
  unfoldable pub load : Option CheckpointRow → Checkpoint
  unfolding parse_row
  load none = empty_checkpoint
  load (some row) = parse_row row

  -- The row that `merge` leaves and returns.
  unfoldable pub upsert : Option CheckpointRow → Checkpoint → CheckpointRow
  unfolding values coalesce_row
  upsert none patch = values patch
  upsert (some row) patch = coalesce_row row (values patch)

  -- `merge`
  unfoldable pub merge : Option CheckpointRow → Checkpoint → Checkpoint × CheckpointRow
  unfolding upsert parse_row
  merge row patch = (parse_row (upsert row patch), upsert row patch)

  -- The row that a sequence of merges leaves, whoever calls them.
  unfoldable pub upsert_all : Option CheckpointRow → List Checkpoint → Option CheckpointRow
  unfolding upsert
  upsert_all row [] = row
  upsert_all row (patch ∷ patches) = upsert_all (some (upsert row patch)) patches
