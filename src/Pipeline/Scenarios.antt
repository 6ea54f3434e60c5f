-- ===== src/Pipeline/Scenarios.antt =====
-- apps/orchestrator-worker/src/pipeline/scenarios.ts: the probes that a plan can name, and what their
-- evidence amounts to. packages/protected-delivery-runner/src/provider-signature.ts.
use ship_yard.Prelude.{
  Bool, true, false, not, ◌&&◌, ◌||◌, Option, none, some, List, [], ◌∷◌, ◌++◌, map, Text, text_eq,
  same_folded, codes, if◌then◌else◌, Result, ok, ◌>>=◌,
}
use ship_yard.Delivery.Scenario.{
  PaymentHeaderName, get, Verdict, pass, fail, inconclusive, provider_signature_invalid,
  AttemptEvidence, ReplayEvidence, ScenarioError, Client,
}
use ship_yard.Delivery.Replay.{ReplayScenario, run_replay}
use ship_yard.Delivery.Credential.{InvalidCredentialScenario, run_credential, zero_hash}
use ship_yard.Checkpoint.{ScenarioResult, truthy}
use ship_yard.Pipeline.Ports.{Deps}

-- `ScenarioExecutionContext`
pub record ScenarioExecutionContext : Type 0 where
  pub target_service_id : Text
  pub target_version_hash : Text
  pub policy_hash : Text
  pub payment_receipt : Text
  pub payment_header_name : PaymentHeaderName
  pub payment_transaction_hash : Text
  pub route : Text
  pub delivery_client : Client

-- The keys of `SCENARIO_EXECUTORS`.
pub data ScenarioKind : Type 0 where
  payment_proof_replay unpaid_access_denial tampered_receipt_rejection : ScenarioKind

abbrev pub scenario_key : ScenarioKind → Text
scenario_key payment_proof_replay = codes "payment-proof-replay"
scenario_key unpaid_access_denial = codes "unpaid-access-denial"
scenario_key tampered_receipt_rejection = codes "tampered-receipt-rejection"

-- `SCENARIO_EXECUTORS[scenarioId]`
unfoldable pub find_executor : Text → Option ScenarioKind
find_executor id =
    if text_eq id (scenario_key payment_proof_replay)
    then some payment_proof_replay
    else (if text_eq id (scenario_key unpaid_access_denial)
        then some unpaid_access_denial
        else (if text_eq id (scenario_key tampered_receipt_rejection)
            then some tampered_receipt_rejection
            else none))

-- The first settlement that an attempt exposes.
abbrev pub first_settlement : List AttemptEvidence → Option Text
first_settlement [] = none
first_settlement (a ∷ rest) = elim (truthy a.settlement_transaction_hash) [
  | some hash ↦ some hash
  | none ↦ first_settlement rest
]

-- `a ?? b`
abbrev pub hash_or : Text → Option Text → Text
hash_or hash none = hash
hash_or hash (some h) = h

-- The verdict on what is left of a list of verdicts.
unfoldable pub some_verdict : (Verdict → Bool) → List ReplayEvidence → Bool
some_verdict is [] = false
some_verdict is (e ∷ es) = is e.result || some_verdict is es

abbrev pub is_fail : Verdict → Bool
is_fail fail = true
is_fail _ = false

abbrev pub is_inconclusive : Verdict → Bool
is_inconclusive inconclusive = true
is_inconclusive _ = false

abbrev pub is_pass : Verdict → Bool
is_pass pass = true
is_pass _ = false

abbrev pub no_evidence : List ReplayEvidence → Bool
no_evidence [] = true
no_evidence (_ ∷ _) = false

-- `aggregateScenarioResult`
unfoldable pub aggregate_scenario_result : List ReplayEvidence → Verdict
unfolding some_verdict
aggregate_scenario_result results =
    if no_evidence results
    then inconclusive
    else (if some_verdict is_fail results
        then fail
        else (if some_verdict is_inconclusive results then inconclusive else pass))

module _ (d : Deps) where
  abbrev pub replay_scenario : ScenarioExecutionContext → ReplayScenario
  replay_scenario ctx = record {
    scenario_id = scenario_key payment_proof_replay;
    target_service_id = ctx.target_service_id;
    target_version_hash = ctx.target_version_hash;
    policy_hash = ctx.policy_hash;
    method = get;
    route = ctx.route;
    request_body = none;
    payment_receipt = ctx.payment_receipt;
    payment_header_name = some ctx.payment_header_name;
    payment_proof_hash = d.keccak256 ctx.payment_transaction_hash;
    accepted_replay_rejection_statuses = none;
  }

  abbrev pub credential_scenario :
      ScenarioKind → Option Text → ScenarioExecutionContext → InvalidCredentialScenario
  credential_scenario kind receipt ctx = record {
    scenario_id = scenario_key kind;
    target_service_id = ctx.target_service_id;
    target_version_hash = ctx.target_version_hash;
    policy_hash = ctx.policy_hash;
    method = get;
    route = ctx.route;
    request_body = none;
    presented_receipt = receipt;
    payment_header_name = some ctx.payment_header_name;
  }

  abbrev pub replay_result : ScenarioExecutionContext → ReplayEvidence → ScenarioResult
  replay_result ctx evidence = record {
    evidence = evidence;
    chain_transaction_hash =
        hash_or ctx.payment_transaction_hash (first_settlement evidence.attempts);
  }

  abbrev pub unpaid_result : ReplayEvidence → ScenarioResult
  unpaid_result evidence = record { evidence = evidence; chain_transaction_hash = zero_hash }

  -- An executor, called.
  unfoldable pub execute :
      ScenarioKind → ScenarioExecutionContext → Result ScenarioError ScenarioResult
  execute payment_proof_replay ctx = do
    evidence ← run_replay d.runtime ctx.delivery_client (replay_scenario ctx)
    ok (replay_result ctx evidence)
  execute unpaid_access_denial ctx = do
    evidence ←
        run_credential d.runtime ctx.delivery_client
          (credential_scenario unpaid_access_denial none ctx)
    ok (unpaid_result evidence)
  execute tampered_receipt_rejection ctx = do
    evidence ← run_credential d.runtime ctx.delivery_client (
        credential_scenario tampered_receipt_rejection
          (some (ctx.payment_receipt ++ codes "-tampered")) ctx)
    ok (unpaid_result evidence)

  abbrev pub is_signer : Text → Option Text → Bool
  is_signer expected none = false
  is_signer expected (some recovered) = same_folded recovered expected

  -- `verifyResponseSignature`
  abbrev pub verify_response_signature : Text → Option Text → Text → Bool
  verify_response_signature hash none expected = false
  verify_response_signature hash (some signature) expected =
      is_signer expected (d.verify_message hash signature)

  -- An attempt with a response that the provider did not sign.
  abbrev pub is_unsigned : Text → Option Text → Option Text → Bool
  is_unsigned expected none signature = false
  is_unsigned expected (some hash) signature =
      not (verify_response_signature hash (truthy signature) expected)

  unfoldable pub some_unsigned : Text → List AttemptEvidence → Bool
  some_unsigned expected [] = false
  some_unsigned expected (a ∷ rest) =
      is_unsigned expected a.response_hash a.provider_signature || some_unsigned expected rest

  abbrev pub distrusted : ScenarioResult → ScenarioResult
  distrusted result = record result {
    evidence = record (result.evidence) {
      result = inconclusive;
      failure_code = some provider_signature_invalid;
    };
  }

  abbrev pub checked_provenance : Text → ScenarioResult → ScenarioResult
  checked_provenance expected result =
      if is_pass result.evidence.result && some_unsigned expected result.evidence.attempts
      then distrusted result
      else result

  -- `verifyScenarioProvenance`
  unfoldable pub verify_scenario_provenance :
      List ScenarioResult → Option Text → List ScenarioResult
  verify_scenario_provenance results none = results
  verify_scenario_provenance results (some expected) = map (checked_provenance expected) results
