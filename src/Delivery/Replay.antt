-- ===== src/Delivery/Replay.antt =====
-- packages/protected-delivery-runner/src/replay-runner.ts: a payment is used, then used again.
use ship_yard.Prelude.{
  ℕ, Bool, false, not, ◌&&◌, ◌||◌, Option, none, some, List, [], ◌∷◌, ◌++◌, Text, codes, length,
  ltb, ◌==◌, if◌then◌else◌, Result, ok, ◌>>◌, throw_if,
}
use ship_yard.Delivery.Scenario.{
  PaymentHeaderName, Method, Verdict, pass, fail, inconclusive, Phase, initial, replay,
  ReplayFailureCode, initial_protected_delivery_failed, payment_proof_replay_accepted,
  replay_probe_inconclusive, DeliveryAttempt, DeliveryRequest, AttemptEvidence, ReplayEvidence,
  ScenarioError, no_identity, bad_route, no_receipt, bad_scenario_hash, bad_statuses, Runtime,
  Client, is_success, is_hash, is_origin_relative, checked, attempt_evidence,
}

pub record ReplayScenario : Type 0 where
  pub scenario_id : Text
  pub target_service_id : Text
  pub target_version_hash : Text
  pub policy_hash : Text
  pub method : Method
  pub route : Text
  pub request_body : Option Text
  pub payment_receipt : Text
  pub payment_header_name : Option PaymentHeaderName
  pub payment_proof_hash : Text
  pub accepted_replay_rejection_statuses : Option (List ℕ)

-- `acceptedReplayRejectionStatuses ?? DEFAULT_REPLAY_REJECTION_STATUSES`
abbrev pub accepted_statuses : Option (List ℕ) → List ℕ
accepted_statuses none = 401 ∷ 402 ∷ 409 ∷ []
accepted_statuses (some statuses) = statuses

abbrev pub some_outside : List ℕ → Bool
some_outside [] = false
some_outside (s ∷ ss) = ltb s 400 || ltb 499 s || some_outside ss

-- `new Set(statuses).has(status)`
unfoldable pub has_status : List ℕ → ℕ → Bool
has_status [] status = false
has_status (s ∷ ss) status = s == status || has_status ss status

-- `validateScenario`
unfoldable pub validate_replay : Runtime → ReplayScenario → Result ScenarioError (Unit {0})
validate_replay runtime scenario = do
  throw_if (length scenario.scenario_id == 0 || length scenario.target_service_id == 0) no_identity
  throw_if (not (is_origin_relative runtime scenario.route)) bad_route
  throw_if (length scenario.payment_receipt == 0) no_receipt
  throw_if
      (not (
        is_hash scenario.target_version_hash
        && is_hash scenario.policy_hash
        && is_hash scenario.payment_proof_hash))
      bad_scenario_hash
  let statuses = accepted_statuses scenario.accepted_replay_rejection_statuses
  throw_if (length statuses == 0 || some_outside statuses) bad_statuses

abbrev pub replay_evidence :
    Runtime
    → ReplayScenario
    → Verdict
    → Option ReplayFailureCode
    → List AttemptEvidence
    → ReplayEvidence
replay_evidence runtime scenario result failure_code attempts = record {
  scenario_id = scenario.scenario_id;
  target_service_id = scenario.target_service_id;
  target_version_hash = scenario.target_version_hash;
  policy_hash = scenario.policy_hash;
  payment_proof_hash = scenario.payment_proof_hash;
  presented_receipt_hash = runtime.hash_text scenario.payment_receipt;
  result = result;
  failure_code = failure_code;
  attempts = attempts;
}

-- What `#attempt` sends under a key.
abbrev pub replay_request : ReplayScenario → Text → DeliveryRequest
replay_request scenario idempotency_key = record {
  method = scenario.method;
  route = scenario.route;
  request_body = scenario.request_body;
  payment_receipt = scenario.payment_receipt;
  payment_header_name = scenario.payment_header_name;
  idempotency_key = idempotency_key;
}

abbrev pub initial_key : ReplayScenario → Text
initial_key scenario = scenario.scenario_id ++ codes ":initial"

abbrev pub replay_key : ReplayScenario → Text
replay_key scenario = scenario.scenario_id ++ codes ":replay"

-- The response of `#attempt`.
unfoldable pub response_to : Client → ReplayScenario → Text → Option DeliveryAttempt
response_to client scenario key = checked (client (replay_request scenario key))

-- The evidence of `#attempt`.
abbrev pub replay_attempt :
    Runtime → ReplayScenario → Text → Phase → Option DeliveryAttempt → AttemptEvidence
replay_attempt runtime scenario key phase response =
    attempt_evidence phase
      (runtime.hash_request scenario.method scenario.route scenario.request_body key) response

-- `run` from the second delivery on.
abbrev pub judge_replay :
    Runtime → ReplayScenario → List AttemptEvidence → Option DeliveryAttempt → ReplayEvidence
judge_replay runtime scenario attempts none =
    replay_evidence runtime scenario inconclusive (some replay_probe_inconclusive) attempts
judge_replay runtime scenario attempts (some response) =
    if is_success response.status_code
    then replay_evidence runtime scenario fail (some payment_proof_replay_accepted) attempts
    else (if not (
          has_status (accepted_statuses scenario.accepted_replay_rejection_statuses)
            response.status_code)
        then replay_evidence runtime scenario inconclusive (some replay_probe_inconclusive) attempts
        else replay_evidence runtime scenario pass none attempts)

-- `run` from the first delivery on.
abbrev pub judge_initial :
    Runtime → Client → ReplayScenario → Option DeliveryAttempt → ReplayEvidence
judge_initial runtime client scenario none =
    replay_evidence runtime scenario inconclusive (some initial_protected_delivery_failed)
      (replay_attempt runtime scenario (initial_key scenario) initial none ∷ [])
judge_initial runtime client scenario (some response) =
    let first = replay_attempt runtime scenario (initial_key scenario) initial (some response) in
    let second = response_to client scenario (replay_key scenario) in
    if not (is_success response.status_code) || not response.delivery_confirmed
    then replay_evidence runtime scenario fail (some initial_protected_delivery_failed) (first ∷ [])
    else judge_replay runtime scenario
        (first ∷ replay_attempt runtime scenario (replay_key scenario) replay second ∷ []) second

-- `ProtectedDeliveryReplayRunner.run`
unfoldable pub run_replay : Runtime → Client → ReplayScenario → Result ScenarioError ReplayEvidence
run_replay runtime client scenario = do
  validate_replay runtime scenario
  ok (judge_initial runtime client scenario (response_to client scenario (initial_key scenario)))
