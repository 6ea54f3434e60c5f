-- ===== src/Pipeline/Ports.antt =====
-- apps/orchestrator-worker/src/pipeline/types.ts and ports.ts: what the pipeline is given.
use ship_yard.Prelude.{ℕ, Bool, Option, List, Text, Result}
use ship_yard.Dates.{Dates}
use ship_yard.Plan.{RiskClassification}
use ship_yard.CrossChain.{EvmAsset, CrossChainProcurementIntent, BridgeQuote}
use ship_yard.Delivery.Scenario.{Runtime, Client}
use ship_yard.Checkpoint.{Checkpoint, Buffers}
use ship_yard.Pipeline.State.{
  RunQuote, Authorization, AcquireInput, AcquiredPayment, RefundInput, TargetPayment, PayerError,
  BridgeStatus, BridgeSubmission, UnsignedToolReceipt, ToolReceipt, EvidencePackContent,
  AttestationInput,
}

-- `bridge` of a registration.
pub record Bridge : Type 0 where
  pub provider : Text
  pub funding_asset : EvmAsset
  pub source_bridge_amount_atomic : Text
  pub source_bridge_payer_address : Text
  pub maximum_bridge_wait_seconds : ℕ

pub data PayerMode : Type 0 where
  bridge_then_pay prefunded : PayerMode

-- `CrossChainPayerRegistration`, less its ports.
pub record PayerRegistration : Type 0 where
  pub chain_id : ℕ
  pub mode : PayerMode
  pub policy_cost_atomic : Text
  pub target_payment_amount_atomic : Text
  pub settlement_asset : EvmAsset
  pub destination_payer_address : Text
  pub target_pay_to_address : Option Text
  pub bridge : Option Bridge

-- `new URL(endpoint)`
pub record UrlParts : Type 0 where
  pub host : Text
  pub path : Text

-- `OrchestratorPipelineDependencies`. A port is asked with the number of calls before it, so it may
-- answer differently each time; `broken` says whether the statement of a store throws, and `others`
-- what other holders of the run's lease had merged into its checkpoint by then.
pub record Deps : Type 0 where
  pub dates : Dates
  pub buffers : Buffers
  pub runtime : Runtime
  pub is_ip : Text → ℕ
  pub parse_url : Text → Option UrlParts
  pub decode_payment_header : Text → Option Authorization
  pub verify_message : Text → Text → Option Text
  pub keccak256 : Text → Text
  pub receipt_root : List ToolReceipt → Text
  pub evidence_root : Text → EvidencePackContent → Text
  pub content_hash : EvidencePackContent → Text
  pub time : ℕ → ℕ
  pub random_nonce : ℕ → Text
  pub broken : ℕ → Option Text
  pub others : ℕ → List Checkpoint
  pub find_quote : Text → Option RunQuote
  pub classify : ℕ → RunQuote → Result Text RiskClassification
  pub acquire : ℕ → AcquireInput → Result Text AcquiredPayment
  pub reserve_nonce : ℕ → Result Text ℕ
  pub is_nonce_consumed : ℕ → ℕ → Result Text Bool
  pub send_refund : ℕ → RefundInput → Result Text Text
  pub pay_target : ℕ → Text → Text → Result PayerError TargetPayment
  pub quote_bridge : ℕ → CrossChainProcurementIntent → Result Text BridgeQuote
  pub submit_bridge :
      ℕ → CrossChainProcurementIntent → BridgeQuote → Text → Result Text BridgeSubmission
  pub bridge_status : ℕ → Text → Result Text BridgeStatus
  pub delivery_client : ℕ → Client
  pub sign : ℕ → UnsignedToolReceipt → Result Text Text
  pub publish : ℕ → EvidencePackContent → Result Text Text
  pub submit : ℕ → AttestationInput → Result Text Text
  pub mandatory_scenarios : List Text
  pub shipyard_agent_id : Text
  pub tool_agent_id : Text
  pub tool_version : Text
  pub chain_id : ℕ
  pub provider_signer_address : Option Text
  pub procurement_allowed_assets : List Text
  pub home_chain_id : ℕ
  pub cross_chain_payers : List PayerRegistration
  pub refunds : Bool
  pub settlement_legs : Bool
  pub attestor_address : Text
