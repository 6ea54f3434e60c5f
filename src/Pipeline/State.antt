-- ===== src/Pipeline/State.antt =====
-- What the pipeline works on: the rows of one run, the calls that left the worker.
-- apps/orchestrator-worker/src/ports.ts, pipeline/types.ts, pipeline/errors.ts.
use ship_yard.Prelude.{ℕ, Option, List, Text}
use ship_yard.Run.{RunAggregate, RunStatus, RunTransitionedEvent, RunError}
use ship_yard.Plan.{RiskLevel, RiskClassification, PlanError}
use ship_yard.Quote.{Quote}
use ship_yard.Policy.Purchase.{PolicyError}
use ship_yard.Policy.Mandate.{MandateError}
use ship_yard.CrossChain.{ProcurementError}
use ship_yard.Delivery.Scenario.{Verdict, AttemptEvidence, ScenarioError}
use ship_yard.Checkpoint.{CheckpointRow}

-- `RunRecord`
pub record RunRecord : Type 0 where
  pub aggregate : RunAggregate
  pub quote_id : Text
  pub request_idempotency_key : Text
  pub customer_payment_proof_hash : Option Text
  pub customer_payment_atomic : Option Text

-- The quote of the run with the chain of its target, which the API froze into it.
pub record RunQuote : Type 0 where
  pub quote : Quote
  pub target_chain_id : Option ℕ

-- The errors of `errors.ts`, those of the modelled packages, those that the phases throw as plain
-- errors, and what a port or a store threw. The flag of `OrchestratorPipelineError`, which is kept
-- for the log, is left out; its cause is not.
pub data PipelineError : Type 0 where
  run_not_found quote_not_found missing_payment : PipelineError
  run_not_ready : RunStatus → PipelineError
  procurement_denied : List Text → PipelineError
  payment_send_ambiguous : ℕ → PipelineError
  bridge_delivery_pending cross_chain_settlement_ambiguous : PipelineError
  transition_refused : RunError → PipelineError
  plan_refused : PlanError → PipelineError
  mandate_refused : MandateError → PipelineError
  policy_failed : PolicyError → PipelineError
  intent_refused : ProcurementError → PipelineError
  scenario_refused : ScenarioError → PipelineError
  bad_url bad_amount run_revision_conflict unreadable_payment not_persisted : PipelineError
  no_executor not_settled no_bridge bridge_timeout bridge_ended : PipelineError
  uncovered_funding no_response_hash no_receipts : PipelineError
  thrown : Text → PipelineError
  pipeline_failed : PipelineError → PipelineError

-- An EIP-3009 authorization as the phases read it.
pub record Authorization : Type 0 where
  pub value : ℕ
  pub nonce : Text

pub record AcquireInput : Type 0 where
  pub endpoint : Text
  pub nonce : Text
  pub valid_after_sec : ℕ
  pub valid_before_sec : ℕ
  pub max_amount_atomic : Text
  pub expected_chain_id : ℕ
  pub allowed_assets : List Text

-- `AcquiredPayment`, less the requirements, which the phases do not read.
pub record AcquiredPayment : Type 0 where
  pub payment_header : Text
  pub authorization : Authorization

pub record RefundInput : Type 0 where
  pub token_address : Text
  pub to_address : Text
  pub value_atomic : ℕ
  pub nonce : ℕ

-- `AuthorizedBnbX402Payment`
pub record TargetPayment : Type 0 where
  pub payment_receipt : Text
  pub payment_proof_hash : Text
  pub amount_atomic : Text

-- What the payer of another chain throws: `X402RequirementNotPayableError`, or anything else.
pub data PayerError : Type 0 where
  not_payable : List Text → PayerError
  payer_threw : Text → PayerError

pub data BridgeState : Type 0 where
  pending destination_funded failed refunded : BridgeState

pub record BridgeStatus : Type 0 where
  pub status : BridgeState
  pub destination_transaction_hash : Option Text
  pub amount_received_atomic : Option Text

pub record BridgeSubmission : Type 0 where
  pub transfer_id : Text
  pub source_transaction_hash : Text

-- `UnsignedToolReceipt`, less the constants of its version and its signature scheme.
pub record UnsignedToolReceipt : Type 0 where
  pub run_id : Text
  pub tool_agent_id : Text
  pub target_agent_id : Text
  pub target_version_hash : Text
  pub policy_hash : Text
  pub scenario_id : Text
  pub request_hash : Text
  pub response_hash : Text
  pub payment_proof_hash : Text
  pub chain_transaction_hash : Text
  pub chain_id : ℕ
  pub started_at : ℕ
  pub completed_at : ℕ
  pub result : Verdict
  pub failure_code : Text
  pub tool_version : Text

pub record ToolReceipt : Type 0 where
  pub unsigned : UnsignedToolReceipt
  pub signature : Text

-- `EvidencePackContent`; the traces are the attempts of the scenarios.
pub record EvidencePackContent : Type 0 where
  pub run_id : Text
  pub target_service_id : Text
  pub target_version_hash : Text
  pub policy_hash : Text
  pub risk_level : RiskLevel
  pub rationale : Text
  pub tool_budget_atomic : Text
  pub ai_proposal : Option RiskClassification
  pub scenarios : List Text
  pub scenario_traces : List (Text × List AttemptEvidence)
  pub result : Verdict
  pub tool_receipts : List ToolReceipt

pub record BuiltEvidencePack : Type 0 where
  pub evidence_root : Text
  pub tool_receipt_root : Text
  pub content_hash : Text
  pub public_manifest : EvidencePackContent

-- `EvidencePack` and `AttestationRecord`, as their stores keep them.
pub record StoredPack : Type 0 where
  pub pack : BuiltEvidencePack
  pub uri : Text
  pub built_at : Text

pub record StoredAttestation : Type 0 where
  pub transaction_hash : Text
  pub expires_at : ℕ
  pub submitted_at : Text

-- `RunAttestationInput`, the fields in the order of the type.
pub record AttestationInput : Type 0 where
  pub run_id : Text
  pub target_agent_id : Text
  pub target_service_id : Text
  pub target_version_hash : Text
  pub policy_hash : Text
  pub customer_payment_proof_hash : Text
  pub tool_receipt_root : Text
  pub evidence_root : Text
  pub evidence_uri : Text
  pub requester : Text
  pub shipyard_agent : Text
  pub customer_payment_token : Text
  pub tool_spend_token : Text
  pub customer_payment : ℕ
  pub tool_spend : ℕ
  pub completed_at : ℕ
  pub expires_at : ℕ
  pub result : Verdict

-- `RunSettlementLeg`, as far as the phase that records it decides: its index, its status, and the
-- hash and the amount that it adds.
pub data LegStatus : Type 0 where
  pending submitted confirmed failed : LegStatus

pub record Leg : Type 0 where
  pub leg_index : ℕ
  pub status : LegStatus
  pub transaction_hash : Option Text
  pub amount_atomic : Option Text

-- What left the worker. A scenario is probed with the payment of the run.
pub data Call : Type 0 where
  statement_sent classified acquired nonce_reserved bridge_quoted signed published : Call
  nonce_asked : ℕ → Call
  refund_sent : RefundInput → Call
  target_paid : Text → Call
  bridge_submitted : Text → Call
  bridge_asked : Text → Call
  probed : Text → Text → Call
  attested : AttestationInput → Call
  leg_recorded : Leg → Call

-- The rows of the run: `runs` with its payment, `orchestrator_run_checkpoints`, `evidence_packs`,
-- `attestations` and `run_events`; and the calls, newest first.
pub record World : Type 0 where
  pub run : Option RunRecord
  pub row : Option CheckpointRow
  pub pack : Option StoredPack
  pub attestation : Option StoredAttestation
  pub events : List RunTransitionedEvent
  pub calls : List Call
