-- ===== src/Delivery/Tests.antt =====
-- A target that delivers once, and one that delivers for a payment twice.
use ship_yard.Prelude.{◌≡◌, refl, true, false, some, none, [], codes, text_eq, is_hex, ℕ}
use ship_yard.Delivery.Scenario.{
  DeliveryAttempt, Client, Runtime, ReplayEvidence, get, pass, is_success, has_backslash,
  is_origin_relative, is_valid_attempt, payment_proof_replay_accepted,
}
use ship_yard.Delivery.Replay.{
  ReplayScenario, run_replay, judge_initial, response_to, validate_replay, has_status, initial_key,
}
use ship_yard.Delivery.Credential.{zero_hash}

abbrev runtime : Runtime
runtime = record {
  parse_route = λ route. some (codes "https://protected-target.invalid", []);
  hash_request = λ method route body key. zero_hash;
  hash_text = λ t. zero_hash;
}

abbrev answer : ℕ → DeliveryAttempt
answer status = record {
  status_code = status;
  delivery_confirmed = true;
  response_body_hash = zero_hash;
  provider_signature = none;
  settlement_transaction_hash = none;
}

abbrev scenario : ReplayScenario
scenario = record {
  scenario_id = codes "replay";
  target_service_id = codes "service";
  target_version_hash = zero_hash;
  policy_hash = zero_hash;
  method = get;
  route = codes "/paid";
  request_body = none;
  payment_receipt = codes "payment";
  payment_header_name = none;
  payment_proof_hash = zero_hash;
  accepted_replay_rejection_statuses = none;
}

abbrev sound_target : Client
sound_target r = elim (text_eq r.idempotency_key (codes "replay:initial")) [
  | true ↦ some (answer 200)
  | false ↦ some (answer 402)
]

abbrev open_target : Client
open_target r = some (answer 200)

abbrev evidence : ReplayEvidence
evidence =
    judge_initial runtime sound_target scenario
      (response_to sound_target scenario (initial_key scenario))

machine : Unit {0}
unfolding codes text_eq is_hex is_success has_backslash is_origin_relative is_valid_attempt
    run_replay response_to validate_replay has_status zero_hash
machine = tt

passed : evidence.result ≡ pass
unfolding machine
passed = refl

repeats :
    (judge_initial runtime open_target scenario
      (response_to open_target scenario (initial_key scenario))).failure_code
    ≡ some payment_proof_replay_accepted
unfolding machine
repeats = refl
