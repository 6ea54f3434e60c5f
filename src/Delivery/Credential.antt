-- ===== src/Delivery/Credential.antt =====
-- packages/protected-delivery-runner/src/invalid-credential-runner.ts: a receipt that was never
-- valid is presented.
use ship_yard.Prelude.{
  ℕ, zero, suc, not, ◌&&◌, ◌||◌, Option, none, some, [], ◌∷◌, ◌++◌, Text, codes, length, ltb, leb,
  ◌==◌, if◌then◌else◌, Result, ok, ◌>>◌, throw_if,
}
use ship_yard.Delivery.Scenario.{
  PaymentHeaderName, Method, Verdict, pass, fail, inconclusive, initial, ReplayFailureCode,
  invalid_credential_accepted, invalid_credential_probe_inconclusive, DeliveryAttempt,
  DeliveryRequest, AttemptEvidence, ReplayEvidence, ScenarioError, no_identity, bad_route,
  bad_scenario_hash, Runtime, Client, is_success, is_hash, is_origin_relative, checked,
  attempt_evidence,
}

pub record InvalidCredentialScenario : Type 0 where
  pub scenario_id : Text
  pub target_service_id : Text
  pub target_version_hash : Text
  pub policy_hash : Text
  pub method : Method
  pub route : Text
  pub request_body : Option Text
  pub presented_receipt : Option Text
  pub payment_header_name : Option PaymentHeaderName

abbrev pub repeat : ℕ → ℕ → Text
repeat c zero = []
repeat c (suc n) = c ∷ repeat c n

-- `ZERO_HASH`
unfoldable pub zero_hash : Text
zero_hash = codes "0x" ++ repeat b'0' 64

-- `validateScenario`
unfoldable pub validate_credential :
    Runtime → InvalidCredentialScenario → Result ScenarioError (Unit {0})
validate_credential runtime scenario = do
  throw_if (length scenario.scenario_id == 0 || length scenario.target_service_id == 0) no_identity
  throw_if (not (is_origin_relative runtime scenario.route)) bad_route
  throw_if (not (is_hash scenario.target_version_hash && is_hash scenario.policy_hash))
      bad_scenario_hash

-- `scenario.presentedReceipt ?? ''`
abbrev pub receipt_or_empty : Option Text → Text
receipt_or_empty none = []
receipt_or_empty (some receipt) = receipt

abbrev pub credential_key : InvalidCredentialScenario → Text
credential_key scenario = scenario.scenario_id ++ codes ":invalid-credential"

abbrev pub credential_request : InvalidCredentialScenario → DeliveryRequest
credential_request scenario = record {
  method = scenario.method;
  route = scenario.route;
  request_body = scenario.request_body;
  payment_receipt = receipt_or_empty scenario.presented_receipt;
  payment_header_name = scenario.payment_header_name;
  idempotency_key = credential_key scenario;
}

abbrev pub credential_evidence :
    Runtime
    → InvalidCredentialScenario
    → Verdict
    → Option ReplayFailureCode
    → AttemptEvidence
    → ReplayEvidence
credential_evidence runtime scenario result failure_code attempt = record {
  scenario_id = scenario.scenario_id;
  target_service_id = scenario.target_service_id;
  target_version_hash = scenario.target_version_hash;
  policy_hash = scenario.policy_hash;
  payment_proof_hash = zero_hash;
  presented_receipt_hash = runtime.hash_text (receipt_or_empty scenario.presented_receipt);
  result = result;
  failure_code = failure_code;
  attempts = attempt ∷ [];
}

-- The attempt: unlike the replay's, it leaves out the hash of a settlement.
abbrev pub credential_attempt :
    Runtime → InvalidCredentialScenario → Option DeliveryAttempt → AttemptEvidence
credential_attempt runtime scenario response =
    record (attempt_evidence initial
      (runtime.hash_request scenario.method scenario.route scenario.request_body
        (credential_key scenario))
      response) { settlement_transaction_hash = none }

-- `run` once the answer is in.
abbrev pub judge_credential :
    Runtime → InvalidCredentialScenario → Option DeliveryAttempt → ReplayEvidence
judge_credential runtime scenario none =
    credential_evidence runtime scenario inconclusive (some invalid_credential_probe_inconclusive)
      (credential_attempt runtime scenario none)
judge_credential runtime scenario (some response) =
    let attempt = credential_attempt runtime scenario (some response) in
    if is_success response.status_code && response.delivery_confirmed
    then credential_evidence runtime scenario fail (some invalid_credential_accepted) attempt
    else (if leb 400 response.status_code && ltb response.status_code 500
        then credential_evidence runtime scenario pass none attempt
        else credential_evidence runtime scenario inconclusive
            (some invalid_credential_probe_inconclusive) attempt)

-- `InvalidCredentialRejectionRunner.run`
unfoldable pub run_credential :
    Runtime → Client → InvalidCredentialScenario → Result ScenarioError ReplayEvidence
run_credential runtime client scenario = do
  validate_credential runtime scenario
  ok (judge_credential runtime scenario (checked (client (credential_request scenario))))
