-- ===== src/Pipeline/Phases.antt =====
-- apps/orchestrator-worker/src/pipeline/risk-analysis-phase.ts and
-- execution-phase.ts.
use ship_yard.Prelude.{
  ℕ, zero, suc, ◌/◌, Bool, true, false, Option, none, some, List, [], ◌∷◌, ◌++◌, Text,
  if◌then◌else◌,
}
use ship_yard.Plan.{RiskClassification, CompiledTestPlan, compile_test_plan}
use ship_yard.Money.{to_string}
use ship_yard.Quote.{Quote}
use ship_yard.Delivery.Scenario.{
  PaymentHeaderName, x_payment, payment_signature, initial, replay, AttemptEvidence, Client,
}
use ship_yard.Checkpoint.{Checkpoint, empty_checkpoint, truthy, ScenarioResult}
use ship_yard.Pipeline.State.{
  RunQuote, cross_chain_settlement_ambiguous, plan_refused, scenario_refused, bad_url, no_executor,
  not_settled, thrown, classified, probed,
}
use ship_yard.Pipeline.Ports.{Deps}
use ship_yard.Pipeline.Steps.{
  Step, pure, raise, ◌>>=◌, ◌>>◌, raise_if, lift, or_raise, perform, instant,
}
use ship_yard.Pipeline.Stores.{merge_checkpoint}
use ship_yard.Pipeline.Procurement.{Purchase}
use ship_yard.Pipeline.Scenarios.{
  ScenarioExecutionContext, ScenarioKind, find_executor, first_settlement, execute,
  verify_scenario_provenance,
}

-- What execution hands on.
pub record Execution : Type 0 where
  pub scenario_results : List ScenarioResult
  pub started_at : ℕ
  pub completed_at : ℕ

-- The batch that a checkpoint holds, where it is complete.
abbrev pub executed : Option (List ScenarioResult) → Option ℕ → Option ℕ → Option Execution
executed (some results) (some started) (some completed) =
    some (record { scenario_results = results; started_at = started; completed_at = completed })
executed _ _ _ = none

abbrev pub all_attempts : List ScenarioResult → List AttemptEvidence
all_attempts [] = []
all_attempts (r ∷ rs) = r.evidence.attempts ++ all_attempts rs

-- `attempts.find((attempt) => attempt.phase === 'INITIAL')`, with its status.
abbrev pub initial_status : List AttemptEvidence → Option ℕ
initial_status [] = none
initial_status (a ∷ rest) = elim (a.phase) [
  | initial ↦ a.status_code
  | replay ↦ initial_status rest
]

-- `!initialAttempt?.statusCode`
abbrev pub no_status : Option ℕ → Bool
no_status none = true
no_status (some zero) = true
no_status (some (suc n)) = false

abbrev pub no_results : List ScenarioResult → Bool
no_results [] = true
no_results (_ ∷ _) = false

module _ (d : Deps) where
  -- `runRiskAnalysisPhase`, on the plan that the checkpoint holds.
  abbrev pub planned_of :
      Option RiskClassification
      → RunQuote
      → Option CompiledTestPlan
      → Step (CompiledTestPlan × Option RiskClassification)
  planned_of proposal quote (some plan) = pure (plan, proposal)
  planned_of proposal quote none = do
    fresh ← perform thrown classified (λ n. d.classify n quote)
    plan ← lift plan_refused (
        compile_test_plan fresh d.mandatory_scenarios
          quote.quote.unsigned.refundable_tool_budget_atomic)
    _ ← merge_checkpoint d (record empty_checkpoint { plan = some plan; proposal = some fresh })
    pure (plan, some fresh)

  -- `runRiskAnalysisPhase`
  unfoldable pub run_risk_analysis_phase :
      Checkpoint → RunQuote → Step (CompiledTestPlan × Option RiskClassification)
  run_risk_analysis_phase checkpoint quote = planned_of checkpoint.proposal quote checkpoint.plan

  abbrev pub context_of : Quote → Purchase → Text → Client → ScenarioExecutionContext
  context_of quote purchase route client = record {
    target_service_id = quote.unsigned.request.target_service_id;
    target_version_hash = quote.unsigned.request.target_version_hash;
    policy_hash = quote.unsigned.request.policy_hash;
    payment_receipt = purchase.purchase_receipt;
    payment_header_name = purchase.payment_header_name;
    payment_transaction_hash = purchase.payment_transaction_hash;
    route = route;
    delivery_client = client;
  }

  -- `await executor(context)`
  abbrev pub probe : Text → ScenarioKind → Quote → Purchase → Text → Step ScenarioResult
  probe id kind quote purchase route =
      perform scenario_refused (probed id purchase.purchase_receipt)
        (λ n. execute d kind (context_of quote purchase route (d.delivery_client n)))

  -- The loop over the scenarios of the plan; one that has no executor is skipped.
  abbrev pub probe_known :
      Text
      → Option ScenarioKind
      → Quote
      → Purchase
      → Text
      → List ScenarioResult
      → Step (List ScenarioResult)
  probe_known id none quote purchase route results = pure results
  probe_known id (some kind) quote purchase route results = do
    result ← probe id kind quote purchase route
    pure (results ++ result ∷ [])

  unfoldable pub probe_all :
      Quote → Purchase → Text → List Text → List ScenarioResult → Step (List ScenarioResult)
  probe_all quote purchase route [] results = pure results
  probe_all quote purchase route (id ∷ ids) results = do
    more ← probe_known id (find_executor id) quote purchase route results
    probe_all quote purchase route ids more

  -- A payment by `payment-signature` must have settled.
  abbrev pub settled : Purchase → List AttemptEvidence → Option Text → Step (Unit {0})
  settled purchase attempts none =
      if no_status (initial_status attempts)
      then raise cross_chain_settlement_ambiguous
      else raise not_settled
  settled purchase attempts (some hash) = do
    _ ← merge_checkpoint d (record empty_checkpoint {
      target_payment_transaction_hash = some hash;
      target_payment_amount_atomic = some (to_string purchase.purchase_amount);
    })
    pure tt

  abbrev pub settled_if : PaymentHeaderName → Purchase → List AttemptEvidence → Step (Unit {0})
  settled_if x_payment purchase attempts = pure tt
  settled_if payment_signature purchase attempts =
      settled purchase attempts (first_settlement attempts)

  abbrev pub execution_patch : Execution → Checkpoint
  execution_patch e = record empty_checkpoint {
    evidence = some e.scenario_results;
    started_at = some e.started_at;
    completed_at = some e.completed_at;
  }

  abbrev pub execution_of : CompiledTestPlan → Quote → Purchase → Option Execution → Step Execution
  execution_of plan quote purchase (some e) = pure e
  execution_of plan quote purchase none = do
    started ← instant d
    target ← or_raise bad_url (d.parse_url quote.unsigned.request.x402_endpoint)
    results ← probe_all quote purchase target.path plan.scenarios []
    raise_if (no_results results) no_executor
    settled_if purchase.payment_header_name purchase (all_attempts results)
    completed ← instant d
    let e : Execution = record {
      scenario_results = results;
      started_at = started / 1000;
      completed_at = completed / 1000;
    }
    _ ← merge_checkpoint d (execution_patch e)
    pure e

  -- `runExecutionPhase`
  unfoldable pub run_execution_phase :
      Checkpoint → CompiledTestPlan → Quote → Purchase → Step Execution
  unfolding probe_all
  run_execution_phase checkpoint plan quote purchase = do
    e ←
        execution_of plan quote purchase
          (executed checkpoint.evidence checkpoint.started_at checkpoint.completed_at)
    pure (record e {
      scenario_results =
          verify_scenario_provenance d e.scenario_results (truthy d.provider_signer_address);
    })
