-- ===== src/Pipeline/Evidence.antt =====
-- apps/orchestrator-worker/src/evidence-builder.ts, attestation-builder.ts,
-- pipeline/evidence-phase.ts and pipeline/attestation-phase.ts.
use ship_yard.Prelude.{
  ℕ, zero, suc, ◌+◌, ◌*◌, Bool, true, false, not, ◌&&◌, Option, none, some, List, [], ◌∷◌, ◌++◌,
  map, Text, codes, if◌then◌else◌,
}
use ship_yard.Plan.{RiskClassification, CompiledTestPlan}
use ship_yard.Quote.{Quote}
use ship_yard.Policy.Purchase.{is_none}
use ship_yard.Delivery.Scenario.{
  Verdict, pass, ReplayFailureCode, initial_protected_delivery_failed,
  payment_proof_replay_accepted, replay_probe_inconclusive, invalid_credential_accepted,
  invalid_credential_probe_inconclusive, provider_signature_invalid, AttemptEvidence,
  ReplayEvidence,
}
use ship_yard.Delivery.Credential.{repeat}
use ship_yard.Checkpoint.{Checkpoint, empty_checkpoint, truthy, ScenarioResult}
use ship_yard.Pipeline.State.{
  no_response_hash, no_receipts, thrown, UnsignedToolReceipt, ToolReceipt, EvidencePackContent,
  BuiltEvidencePack, StoredPack, StoredAttestation, AttestationInput, signed, published, attested,
}
use ship_yard.Pipeline.Ports.{Deps}
use ship_yard.Pipeline.Steps.{Step, pure, raise, ◌>>=◌, ◌>>◌, raise_if, or_raise, perform, instant}
use ship_yard.Pipeline.Stores.{
  merge_checkpoint, find_pack, find_attestation, put_pack, put_attestation,
}
use ship_yard.Pipeline.Scenarios.{aggregate_scenario_result, is_inconclusive}

abbrev pub has_response : List AttemptEvidence → Bool
has_response [] = false
has_response (a ∷ rest) = not (is_none a.response_hash)

-- `canBuildToolReceipt`
unfoldable pub can_build_tool_receipt : ReplayEvidence → Bool
can_build_tool_receipt evidence = has_response evidence.attempts

-- A code is its own text in the source.
unfoldable pub failure_text : ReplayFailureCode → Text
failure_text initial_protected_delivery_failed = codes "INITIAL_PROTECTED_DELIVERY_FAILED"
failure_text payment_proof_replay_accepted = codes "PAYMENT_PROOF_REPLAY_ACCEPTED"
failure_text replay_probe_inconclusive = codes "REPLAY_PROBE_INCONCLUSIVE"
failure_text invalid_credential_accepted = codes "INVALID_CREDENTIAL_ACCEPTED"
failure_text invalid_credential_probe_inconclusive = codes "INVALID_CREDENTIAL_PROBE_INCONCLUSIVE"
failure_text provider_signature_invalid = codes "PROVIDER_SIGNATURE_INVALID"

-- `result === 'PASS' ? '' : (failureCode ?? 'UNKNOWN')`
unfoldable pub receipt_failure : Verdict → Option ReplayFailureCode → Text
unfolding failure_text
receipt_failure pass code = []
receipt_failure _ none = codes "UNKNOWN"
receipt_failure _ (some code) = failure_text code

abbrev pub evidence_of : ScenarioResult → ReplayEvidence
evidence_of result = result.evidence

abbrev pub no_tool_receipts : List ToolReceipt → Bool
no_tool_receipts [] = true
no_tool_receipts (_ ∷ _) = false

-- The scenarios that can be receipted, of a list.
unfoldable pub receiptable : List ScenarioResult → List ScenarioResult
unfolding can_build_tool_receipt
receiptable [] = []
receiptable (r ∷ rs) =
    let rest = receiptable rs in if can_build_tool_receipt r.evidence then r ∷ rest else rest

-- `EXPIRY_WINDOW_SECONDS`
abbrev pub expiry_window_seconds : ℕ
expiry_window_seconds = 2_592_000

-- `forcedResult ?? aggregateScenarioResult(...)`
abbrev pub verdict_of : Option Verdict → List ScenarioResult → Verdict
verdict_of none results = aggregate_scenario_result (map evidence_of results)
verdict_of (some forced) results = forced

-- What the two last phases hand on.
pub record BuiltEvidence : Type 0 where
  pub pack : BuiltEvidencePack
  pub uri : Text
  pub overall_result : Verdict

module _ (d : Deps) where
  abbrev pub receipt_of_attempt :
      Text → Quote → ℕ → ℕ → ScenarioResult → AttemptEvidence → Text → UnsignedToolReceipt
  receipt_of_attempt run_id quote started completed result attempt response = record {
    run_id = run_id;
    tool_agent_id = d.tool_agent_id;
    target_agent_id = quote.unsigned.request.target_agent_id;
    target_version_hash = quote.unsigned.request.target_version_hash;
    policy_hash = quote.unsigned.request.policy_hash;
    scenario_id = result.evidence.scenario_id;
    request_hash = attempt.request_hash;
    response_hash = response;
    payment_proof_hash = d.keccak256 result.chain_transaction_hash;
    chain_transaction_hash = result.chain_transaction_hash;
    chain_id = d.chain_id;
    started_at = started;
    completed_at = completed;
    result = result.evidence.result;
    failure_code = receipt_failure result.evidence.result result.evidence.failure_code;
    tool_version = d.tool_version;
  }

  abbrev pub receipt_of_first :
      Text → Quote → ℕ → ℕ → ScenarioResult → List AttemptEvidence → Step UnsignedToolReceipt
  receipt_of_first run_id quote started completed result [] = raise no_response_hash
  receipt_of_first run_id quote started completed result (attempt ∷ rest) = do
    response ← or_raise no_response_hash (truthy attempt.response_hash)
    pure (receipt_of_attempt run_id quote started completed result attempt response)

  -- `buildUnsignedToolReceipt`
  unfoldable pub build_unsigned_tool_receipt :
      Text → Quote → ℕ → ℕ → ScenarioResult → Step UnsignedToolReceipt
  build_unsigned_tool_receipt run_id quote started completed result =
      receipt_of_first run_id quote started completed result result.evidence.attempts

  -- The loop that signs a receipt for each scenario.
  unfoldable pub sign_all :
      Text → Quote → ℕ → ℕ → List ScenarioResult → List ToolReceipt → Step (List ToolReceipt)
  unfolding build_unsigned_tool_receipt
  sign_all run_id quote started completed [] receipts = pure receipts
  sign_all run_id quote started completed (r ∷ rs) receipts = do
    unsigned ← build_unsigned_tool_receipt run_id quote started completed r
    signature ← perform thrown signed (λ n. d.sign n unsigned)
    sign_all run_id quote started completed rs
        (receipts ++ record { unsigned = unsigned; signature = signature } ∷ [])

  -- `EMPTY_TOOL_RECEIPT_ROOT`, or the root of the receipts.
  abbrev pub root_of : List ToolReceipt → Text
  root_of [] = codes "0x" ++ repeat b'0' 64
  root_of (r ∷ rs) = d.receipt_root (r ∷ rs)

  -- `buildEvidencePack`
  unfoldable pub build_evidence_pack : EvidencePackContent → Step BuiltEvidencePack
  build_evidence_pack content = do
    raise_if (no_tool_receipts content.tool_receipts && not (is_inconclusive content.result))
        no_receipts
    pure (record {
      evidence_root = d.evidence_root (root_of content.tool_receipts) content;
      tool_receipt_root = root_of content.tool_receipts;
      content_hash = d.content_hash content;
      public_manifest = content;
    })

  abbrev pub content_of :
      Text
      → Quote
      → CompiledTestPlan
      → Option RiskClassification
      → List ScenarioResult
      → Verdict
      → List ToolReceipt
      → EvidencePackContent
  content_of run_id quote plan proposal results verdict receipts = record {
    run_id = run_id;
    target_service_id = quote.unsigned.request.target_service_id;
    target_version_hash = quote.unsigned.request.target_version_hash;
    policy_hash = quote.unsigned.request.policy_hash;
    risk_level = plan.risk_level;
    rationale = plan.rationale;
    tool_budget_atomic = plan.tool_budget_atomic;
    ai_proposal = proposal;
    scenarios = map (λ r. r.evidence.scenario_id) results;
    scenario_traces = map (λ r. (r.evidence.scenario_id, r.evidence.attempts)) results;
    result = verdict;
    tool_receipts = receipts;
  }

  -- `if (!(await store.getByRunId(runId))) await store.put(...)`
  abbrev pub put_pack_if_none : BuiltEvidencePack → Text → Option StoredPack → Step (Unit {0})
  put_pack_if_none pack uri (some old) = pure tt
  put_pack_if_none pack uri none = do
    now ← instant d
    put_pack d (record { pack = pack; uri = uri; built_at = d.dates.to_iso now })

  -- `runEvidencePhase`
  unfoldable pub run_evidence_phase :
      Text
      → Quote
      → CompiledTestPlan
      → Option RiskClassification
      → List ScenarioResult
      → ℕ
      → ℕ
      → Option Verdict
      → Step BuiltEvidence
  unfolding sign_all build_evidence_pack
  run_evidence_phase run_id quote plan proposal results started completed forced = do
    receipts ← sign_all run_id quote started completed results []
    let verdict = verdict_of forced results
    pack ← build_evidence_pack (content_of run_id quote plan proposal results verdict receipts)
    uri ← perform thrown published (λ n. d.publish n pack.public_manifest)
    stored ← find_pack d
    put_pack_if_none pack uri stored
    pure (record { pack = pack; uri = uri; overall_result = verdict })

  abbrev pub spend_token : ℕ → Text
  spend_token zero = codes "0x" ++ repeat b'0' 40
  spend_token (suc n) = codes "0xEeeeeEeeeEeEeeEeEeEeeEEEeeeeEeeeeeeeEEeE"

  -- `buildAttestationInput`
  unfoldable pub build_attestation_input :
      Text → Quote → Text → ℕ → BuiltEvidence → ℕ → ℕ → AttestationInput
  build_attestation_input run_id quote proof_hash customer_payment built spend completed = record {
    run_id = d.keccak256 run_id;
    target_agent_id = d.keccak256 quote.unsigned.request.target_agent_id;
    target_service_id = d.keccak256 quote.unsigned.request.target_service_id;
    target_version_hash = quote.unsigned.request.target_version_hash;
    policy_hash = quote.unsigned.request.policy_hash;
    customer_payment_proof_hash = proof_hash;
    tool_receipt_root = built.pack.tool_receipt_root;
    evidence_root = built.pack.evidence_root;
    evidence_uri = built.uri;
    requester = quote.unsigned.request.requester_address;
    shipyard_agent = d.attestor_address;
    customer_payment_token = quote.unsigned.capability_snapshot.token_address;
    tool_spend_token = spend_token spend;
    customer_payment = customer_payment;
    tool_spend = spend;
    completed_at = completed;
    expires_at = completed + expiry_window_seconds;
    result = built.overall_result;
  }

  -- The hash of the attestation: the checkpointed one, or that of one submitted now.
  abbrev pub attestation_of : AttestationInput → Option Text → Step Text
  attestation_of input (some hash) = pure hash
  attestation_of input none = do
    hash ← perform thrown (attested input) (λ n. d.submit n input)
    _ ← merge_checkpoint d (record empty_checkpoint { attestation_transaction_hash = some hash })
    pure hash

  abbrev pub put_attestation_if_none :
      AttestationInput → Text → Option StoredAttestation → Step (Unit {0})
  put_attestation_if_none input hash (some old) = pure tt
  put_attestation_if_none input hash none = do
    now ← instant d
    put_attestation d (record {
      transaction_hash = hash;
      expires_at = input.expires_at * 1000;
      submitted_at = d.dates.to_iso now;
    })

  -- `runAttestationPhase`
  unfoldable pub run_attestation_phase : Checkpoint → AttestationInput → Step Text
  run_attestation_phase checkpoint input = do
    hash ← attestation_of input (truthy checkpoint.attestation_transaction_hash)
    stored ← find_attestation d
    put_attestation_if_none input hash stored
    pure hash
