-- ===== src/Pipeline/Drive.antt =====
-- apps/orchestrator-worker/src/pipeline.ts: `runOrchestratorPipeline` and
-- `finalizeRunAsInconclusive`.
use ship_yard.Prelude.{
  ℕ, ◌/◌, not, ◌&&◌, Option, none, some, List, [], ◌∷◌, ◌++◌, Text, codes, if◌then◌else◌, ok, err,
}
use ship_yard.Run.{
  RunAggregate, RunStatus, funded, analyzing, plan_compiled, procuring, executing, replanning,
  evidence_building, attesting, delivered_pass, delivered_fail, delivered_inconclusive,
  orchestrator, policy_engine, procurement_worker, execution_worker, evidence_worker, attestor,
  system, has_status, same_status,
}
use ship_yard.Money.{parse_atomic_amount}
use ship_yard.Plan.{high, CompiledTestPlan}
use ship_yard.Quote.{Quote}
use ship_yard.Policy.Purchase.{is_none}
use ship_yard.Delivery.Scenario.{Verdict, pass, fail, inconclusive}
use ship_yard.Checkpoint.{Checkpoint, truthy, ScenarioResult}
use ship_yard.Pipeline.State.{
  RunRecord, RunQuote, PipelineError, run_not_found, quote_not_found, missing_payment,
  run_not_ready, procurement_denied, payment_send_ambiguous, bridge_delivery_pending,
  cross_chain_settlement_ambiguous, bad_amount, thrown, pipeline_failed,
}
use ship_yard.Pipeline.Ports.{PayerRegistration, Deps}
use ship_yard.Pipeline.Steps.{Outcome, Step, pure, ◌>>=◌, ◌>>◌, raise_if, or_raise, statement}
use ship_yard.Pipeline.Stores.{move, advance, load_checkpoint, find_run}
use ship_yard.Pipeline.Procurement.{Purchase, run_procurement_phase}
use ship_yard.Pipeline.CrossChain.{
  target_is_remote, resolve_cross_chain_payer, run_cross_chain_procurement_phase,
}
use ship_yard.Pipeline.Bridging.{both_texts}
use ship_yard.Pipeline.Phases.{run_risk_analysis_phase, run_execution_phase}
use ship_yard.Pipeline.Evidence.{
  receiptable, run_evidence_phase, build_attestation_input, run_attestation_phase,
}

-- `RESUMABLE_STATUSES`
abbrev pub resumable_statuses : List RunStatus
resumable_statuses =
    funded ∷ analyzing ∷ plan_compiled ∷ procuring ∷ executing ∷ evidence_building ∷ attesting ∷ []

-- `FINALIZABLE_STATUSES`
abbrev pub finalizable_statuses : List RunStatus
finalizable_statuses =
    funded ∷ analyzing ∷ plan_compiled ∷ procuring ∷ executing ∷ replanning ∷ evidence_building
    ∷ attesting ∷ []

pub record PipelineResult : Type 0 where
  pub run_id : Text
  pub final_status : RunStatus
  pub attestation_transaction_hash : Text

-- `customerPaymentProofHash` and `customerPaymentAtomic`, where both are there.
abbrev pub customer_payment_of : RunRecord → Option (Text × Text)
customer_payment_of r =
    both_texts (truthy r.customer_payment_proof_hash) (truthy r.customer_payment_atomic)

-- The final status that a verdict delivers.
abbrev pub final_status_of : Verdict → RunStatus
final_status_of pass = delivered_pass
final_status_of fail = delivered_fail
final_status_of inconclusive = delivered_inconclusive

-- The `catch`: four errors go through, the others become the cause of `OrchestratorPipelineError`.
abbrev pub rethrown : PipelineError → PipelineError
rethrown (procurement_denied denials) = procurement_denied denials
rethrown (payment_send_ambiguous nonce) = payment_send_ambiguous nonce
rethrown bridge_delivery_pending = bridge_delivery_pending
rethrown cross_chain_settlement_ambiguous = cross_chain_settlement_ambiguous
rethrown e = pipeline_failed e

abbrev pub caught : {A : Type 0} → Outcome A → Outcome A
caught (ok a, w) = (ok a, w)
caught (err e, w) = (err (rethrown e), w)

-- The plan that stands in where none was compiled.
abbrev pub plan_or : Text → Option CompiledTestPlan → CompiledTestPlan
plan_or reason (some plan) = plan
plan_or reason none = record {
  scenarios = [];
  tool_budget_atomic = codes "0";
  risk_level = high;
  rationale = codes "Run finalized as INCONCLUSIVE before a test plan was compiled: " ++ reason;
}

abbrev pub results_or_none : Option (List ScenarioResult) → List ScenarioResult
results_or_none none = []
results_or_none (some results) = results

abbrev pub text_or : Text → Option Text → Text
text_or t none = t
text_or t (some s) = s

module _ (d : Deps) where
  abbrev pub procure :
      Option PayerRegistration
      → Text
      → Checkpoint
      → CompiledTestPlan
      → Quote
      → RunStatus
      → Step Purchase
  procure none run_id checkpoint plan quote status =
      run_procurement_phase d run_id checkpoint plan quote status
  procure (some payer) run_id checkpoint plan quote status =
      run_cross_chain_procurement_phase d payer run_id checkpoint plan quote status

  -- `if (current.status !== finalStatus) ...`
  unfoldable pub deliver_as : Text → RunAggregate → RunStatus → Step RunAggregate
  deliver_as run_id current final =
      if same_status current.status final
      then pure current
      else move d run_id current attestor final

  -- The body of the `try`.
  unfoldable pub drive :
      Text → RunAggregate → RunQuote → Text × Text → Checkpoint → Step PipelineResult
  unfolding target_is_remote resolve_cross_chain_payer run_procurement_phase
      run_cross_chain_procurement_phase deliver_as
  drive run_id funded_run quote payment checkpoint = do
    analyzing_run ← advance d run_id funded_run orchestrator analyzing
    planned ← run_risk_analysis_phase d checkpoint quote
    let plan = planned.0
    compiled_run ← advance d run_id analyzing_run policy_engine plan_compiled
    procuring_run ← advance d run_id compiled_run procurement_worker procuring
    let payer = resolve_cross_chain_payer d quote
    raise_if (is_none payer && target_is_remote d quote)
        (procurement_denied (codes "NO_PAYER_FOR_TARGET_CHAIN" ∷ []))
    purchase ← procure payer run_id checkpoint plan quote.quote procuring_run.status
    executing_run ← advance d run_id procuring_run procurement_worker executing
    execution ← run_execution_phase d checkpoint plan quote.quote purchase
    building_run ← advance d run_id executing_run execution_worker evidence_building
    built ←
        run_evidence_phase d run_id quote.quote plan (planned.1) execution.scenario_results
          execution.started_at execution.completed_at none
    attesting_run ← advance d run_id building_run evidence_worker attesting
    customer_payment ← or_raise bad_amount (parse_atomic_amount (payment.1))
    hash ← run_attestation_phase d checkpoint (
        build_attestation_input d run_id quote.quote (payment.0) customer_payment built
          purchase.purchase_amount execution.completed_at)
    let final = final_status_of built.overall_result
    _ ← deliver_as run_id attesting_run final
    pure (record { run_id = run_id; final_status = final; attestation_transaction_hash = hash })

  -- `quoteRepository.findById`
  unfoldable pub find_quote : Text → Step (Option RunQuote)
  find_quote id = statement d (λ w. (ok (d.find_quote id), w))

  -- `runOrchestratorPipeline`
  unfoldable pub run_orchestrator_pipeline : Text → Step PipelineResult
  unfolding drive find_quote
  run_orchestrator_pipeline run_id = do
    found ← find_run d
    r ← or_raise run_not_found found
    raise_if (not (has_status resumable_statuses r.aggregate.status))
        (run_not_ready r.aggregate.status)
    found_quote ← find_quote r.quote_id
    quote ← or_raise quote_not_found found_quote
    payment ← or_raise missing_payment (customer_payment_of r)
    checkpoint ← load_checkpoint d
    λ w. caught (drive run_id r.aggregate quote payment checkpoint w)

  -- The seconds that a checkpoint holds, or those of a time of the run, which is a date.
  abbrev pub seconds_or : Text → Option ℕ → Step ℕ
  seconds_or time (some seconds) = pure seconds
  seconds_or time none = do
    at ← or_raise (thrown (codes "Invalid time value")) (d.dates.parse time)
    pure (at / 1000)

  -- `finalizeRunAsInconclusive`, on a run that is its to finalise.
  unfoldable pub finalize : Text → Text → RunAggregate → Quote → Text × Text → Step PipelineResult
  unfolding deliver_as
  finalize run_id reason stopped quote payment = do
    checkpoint ← load_checkpoint d
    let results = receiptable (results_or_none checkpoint.evidence)
    started ← seconds_or stopped.created_at checkpoint.started_at
    completed ← seconds_or stopped.updated_at checkpoint.completed_at
    let plan = plan_or reason checkpoint.plan
    analyzing_run ←
        (if same_status stopped.status funded
          then advance d run_id stopped orchestrator analyzing
          else pure stopped)
    building_run ← advance d run_id analyzing_run system evidence_building
    built ←
        run_evidence_phase d run_id quote plan checkpoint.proposal results started completed
          (some inconclusive)
    attesting_run ← advance d run_id building_run evidence_worker attesting
    customer_payment ← or_raise bad_amount (parse_atomic_amount (payment.1))
    spend ←
        or_raise bad_amount
          (parse_atomic_amount (text_or (codes "0") checkpoint.target_payment_amount_atomic))
    hash ←
        run_attestation_phase d checkpoint (
          build_attestation_input d run_id quote (payment.0) customer_payment built spend completed)
    _ ← deliver_as run_id attesting_run delivered_inconclusive
    pure (record {
      run_id = run_id;
      final_status = delivered_inconclusive;
      attestation_transaction_hash = hash;
    })

  abbrev pub finalize_quoted :
      Text → Text → RunAggregate → Text × Text → Option RunQuote → Step (Option PipelineResult)
  finalize_quoted run_id reason stopped payment none = pure none
  finalize_quoted run_id reason stopped payment (some quote) = do
    result ← finalize run_id reason stopped quote.quote payment
    pure (some result)

  abbrev pub finalize_paid :
      Text → Text → RunRecord → Option (Text × Text) → Step (Option PipelineResult)
  finalize_paid run_id reason r none = pure none
  finalize_paid run_id reason r (some payment) = do
    quote ← find_quote r.quote_id
    finalize_quoted run_id reason r.aggregate payment quote

  abbrev pub finalize_found : Text → Text → Option RunRecord → Step (Option PipelineResult)
  finalize_found run_id reason none = pure none
  finalize_found run_id reason (some r) =
      if not (has_status finalizable_statuses r.aggregate.status)
      then pure none
      else finalize_paid run_id reason r (customer_payment_of r)

  -- `finalizeRunAsInconclusive`
  unfoldable pub finalize_run_as_inconclusive : Text → Text → Step (Option PipelineResult)
  unfolding finalize find_quote
  finalize_run_as_inconclusive run_id reason = do
    found ← find_run d
    finalize_found run_id reason found
