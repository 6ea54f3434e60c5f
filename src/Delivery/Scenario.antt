-- ===== src/Delivery/Scenario.antt =====
-- packages/protected-delivery-runner/src/replay-runner.ts, invalid-credential-runner.ts and
-- scenario-shared.ts: scenarios, deliveries, evidence, and the checks that both runners make. A
-- number is an integer of at least 0 by its type; a JSON body is its canonical text.
use ship_yard.Prelude.{
  ℕ, Bool, true, false, not, ◌&&◌, ◌||◌, Option, none, some, List, [], ◌∷◌, Text, text_eq, is_hex,
  codes, length, leb, ◌==◌,
}

pub data PaymentHeaderName : Type 0 where
  x_payment payment_signature : PaymentHeaderName

pub data Method : Type 0 where
  get post : Method

pub data Verdict : Type 0 where
  pass fail inconclusive : Verdict

pub data Phase : Type 0 where
  initial replay : Phase

pub data ReplayFailureCode : Type 0 where
  initial_protected_delivery_failed payment_proof_replay_accepted : ReplayFailureCode
  replay_probe_inconclusive invalid_credential_accepted : ReplayFailureCode
  invalid_credential_probe_inconclusive provider_signature_invalid : ReplayFailureCode

-- `ProtectedDeliveryAttempt`: what the target answered.
pub record DeliveryAttempt : Type 0 where
  pub status_code : ℕ
  pub delivery_confirmed : Bool
  pub response_body_hash : Text
  pub provider_signature : Option Text
  pub settlement_transaction_hash : Option Text

-- The input of `ProtectedDeliveryClient.execute`, less the abort signal.
pub record DeliveryRequest : Type 0 where
  pub method : Method
  pub route : Text
  pub request_body : Option Text
  pub payment_receipt : Text
  pub payment_header_name : Option PaymentHeaderName
  pub idempotency_key : Text

pub record AttemptEvidence : Type 0 where
  pub phase : Phase
  pub request_hash : Text
  pub response_hash : Option Text
  pub status_code : Option ℕ
  pub delivery_confirmed : Option Bool
  pub provider_signature : Option Text
  pub settlement_transaction_hash : Option Text

pub record ReplayEvidence : Type 0 where
  pub scenario_id : Text
  pub target_service_id : Text
  pub target_version_hash : Text
  pub policy_hash : Text
  pub payment_proof_hash : Text
  pub presented_receipt_hash : Text
  pub result : Verdict
  pub failure_code : Option ReplayFailureCode
  pub attempts : List AttemptEvidence

pub data ScenarioError : Type 0 where
  no_identity bad_route no_receipt bad_scenario_hash bad_statuses : ScenarioError

-- The runtime: `URL` relative to the base of the scenarios (the origin and the fragment, `none`
-- where it throws), the hash of a request's canonical JSON, and the hash of a text.
pub record Runtime : Type 0 where
  pub parse_route : Text → Option (Text × Text)
  pub hash_request : Method → Text → Option Text → Text → Text
  pub hash_text : Text → Text

-- `client.execute`; `none` where it throws. The two requests of a scenario differ in their keys.
abbrev pub Client : Type 0
Client = DeliveryRequest → Option DeliveryAttempt

-- `isSuccess`
unfoldable pub is_success : ℕ → Bool
is_success status_code = leb 200 status_code && leb status_code 299

-- `HASH_PATTERN`
abbrev pub is_hash : Text → Bool
is_hash value = is_hex 64 value

abbrev pub starts_with_slash : Text → Bool
starts_with_slash [] = false
starts_with_slash (c ∷ s) = c == b'/'

-- The third unit of `%5c`, in either case.
abbrev pub is_escape_tail : Text → Bool
is_escape_tail (a ∷ b ∷ s) = a == b'5' && (b == b'c' || b == b'C')
is_escape_tail _ = false

-- /\\|%5c/i
unfoldable pub has_backslash : Text → Bool
has_backslash [] = false
has_backslash (c ∷ s) = c == 92 || (c == b'%' && is_escape_tail s) || has_backslash s

abbrev pub is_at_base : Option (Text × Text) → Bool
is_at_base none = false
is_at_base (some (origin, fragment)) =
    text_eq origin (codes "https://protected-target.invalid") && length fragment == 0

-- The test on the route.
unfoldable pub is_origin_relative : Runtime → Text → Bool
unfolding has_backslash
is_origin_relative runtime route =
    starts_with_slash route && is_at_base (runtime.parse_route route) && not (has_backslash route)

-- `validateAttempt`: whether the answer is kept.
unfoldable pub is_valid_attempt : DeliveryAttempt → Bool
is_valid_attempt attempt =
    leb 100 attempt.status_code && leb attempt.status_code 599 && is_hash attempt.response_body_hash

-- The answer behind the `try`: none where the call threw or `validateAttempt` did.
abbrev pub checked : Option DeliveryAttempt → Option DeliveryAttempt
checked none = none
checked (some attempt) = elim (is_valid_attempt attempt) [ true ↦ some attempt | false ↦ none ]

-- The evidence of an attempt, with the answer if there was one.
abbrev pub attempt_evidence : Phase → Text → Option DeliveryAttempt → AttemptEvidence
attempt_evidence phase request_hash none = record {
  phase = phase;
  request_hash = request_hash;
  response_hash = none;
  status_code = none;
  delivery_confirmed = none;
  provider_signature = none;
  settlement_transaction_hash = none;
}
attempt_evidence phase request_hash (some response) = record {
  phase = phase;
  request_hash = request_hash;
  response_hash = some response.response_body_hash;
  status_code = some response.status_code;
  delivery_confirmed = some response.delivery_confirmed;
  provider_signature = response.provider_signature;
  settlement_transaction_hash = response.settlement_transaction_hash;
}
