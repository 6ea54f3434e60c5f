-- ===== src/Pipeline/Samples.antt =====
-- Ports that answer, and a run with a target on the chain of the worker.
use ship_yard.Prelude.{ℕ, ◌+◌, ◌*◌, true, false, Bool, none, some, [], ◌∷◌, text_eq, codes, ok, err}
use ship_yard.Dates.{sample_dates}
use ship_yard.Run.{RunAggregate, RunStatus}
use ship_yard.Plan.{low, RiskClassification}
use ship_yard.Quote.{QuoteRequest, LineItems}
use ship_yard.CrossChain.{EvmAsset}
use ship_yard.Delivery.Scenario.{DeliveryAttempt, Client}
use ship_yard.Delivery.Credential.{zero_hash}
use ship_yard.Pipeline.State.{RunRecord, RunQuote, payer_threw, World}
use ship_yard.Pipeline.Ports.{Deps}

abbrev pub run_in : RunStatus → RunAggregate
run_in status = record {
  id = codes "run";
  status = status;
  result = none;
  revision = 4;
  created_at = 5 ∷ [];
  updated_at = 7 ∷ [];
  applied_idempotency_keys = [];
}

abbrev pub paid_run : RunStatus → RunRecord
paid_run status = record {
  aggregate = run_in status;
  quote_id = codes "quote";
  request_idempotency_key = codes "key";
  customer_payment_proof_hash = some (codes "0xaa");
  customer_payment_atomic = some (codes "9");
}

abbrev request : QuoteRequest
request = record {
  organization_id = codes "org";
  requester_address = codes "0xrequester";
  target_agent_id = codes "tool";
  target_service_id = codes "service";
  target_version_hash = zero_hash;
  previous_version_hash = none;
  policy_hash = zero_hash;
  x402_endpoint = codes "https://a.b/paid";
  open_api_url = codes "https://a.b/api";
  maximum_customer_budget_atomic = codes "20";
}

abbrev items : LineItems
items = record {
  base_orchestration_fee_atomic = codes "1";
  mandatory_tool_budget_atomic = codes "5";
  dynamic_tool_budget_atomic = codes "0";
  model_infrastructure_reserve_atomic = codes "1";
  chain_storage_reserve_atomic = codes "1";
  risk_support_reserve_atomic = codes "1";
}

abbrev pub sample_quote : RunQuote
sample_quote = record {
  quote = record {
    unsigned = record {
      id = codes "quote";
      request = request;
      capability_snapshot = record {
        chain_id = 1;
        token_address = codes "0xtoken";
        receiving_address = codes "0xus";
      };
      line_items = items;
      total_atomic_amount = codes "9";
      refundable_tool_budget_atomic = codes "5";
      created_at = 1 ∷ [];
      expires_at = 90 ∷ [];
    };
    quote_commitment = codes "c";
  };
  target_chain_id = some 1;
}

-- The target delivers for the first use of a payment, refuses the second, and signs its answers.
abbrev answer : ℕ → Bool → DeliveryAttempt
answer status confirmed = record {
  status_code = status;
  delivery_confirmed = confirmed;
  response_body_hash = zero_hash;
  provider_signature = some (codes "signer");
  settlement_transaction_hash = none;
}

abbrev target : Client
target r = elim (text_eq r.idempotency_key (codes "payment-proof-replay:initial")) [
  | true ↦ some (answer 200 true)
  | false ↦ some (answer 402 false)
]

abbrev classification : RiskClassification
classification = record {
  risk_level = low;
  proposed_scenarios = [];
  proposed_tool_budget_atomic = codes "4";
  rationale = codes "small";
}

abbrev asset : EvmAsset
asset = record {
  network = codes "eip155:1";
  token_address = codes "0xtoken";
  symbol = codes "T";
  decimals = 6;
}

abbrev pub sample_deps : Deps
sample_deps = record {
  dates = sample_dates;
  buffers = record { from_hex = λ h. h; to_hex = λ b. b };
  runtime = record {
    parse_route = λ route. some (codes "https://protected-target.invalid", []);
    hash_request = λ method route body key. zero_hash;
    hash_text = λ t. zero_hash;
  };
  is_ip = λ h. 0;
  parse_url = λ url. some (record { host = codes "a.b"; path = codes "/paid" });
  decode_payment_header = λ h. some (record { value = 4; nonce = codes "0x01" });
  verify_message = λ hash signature. some signature;
  keccak256 = λ t. zero_hash;
  receipt_root = λ receipts. zero_hash;
  evidence_root = λ root content. zero_hash;
  content_hash = λ content. zero_hash;
  time = λ n. 5000 + n * 1000;
  random_nonce = λ n. codes "0x01";
  broken = λ n. none;
  others = λ n. [];
  find_quote = λ id. some sample_quote;
  classify = λ n quote. ok classification;
  acquire = λ n input. ok (record {
    payment_header = codes "payment";
    authorization = record { value = 4; nonce = codes "0x01" };
  });
  reserve_nonce = λ n. ok 9;
  is_nonce_consumed = λ n nonce. ok false;
  send_refund = λ n input. ok (codes "0x02");
  pay_target = λ n endpoint key. err (payer_threw (codes "no payer"));
  quote_bridge = λ n intent. err (codes "no bridge");
  submit_bridge = λ n intent quote key. err (codes "no bridge");
  bridge_status = λ n transfer. err (codes "no bridge");
  delivery_client = λ n. target;
  sign = λ n receipt. ok (codes "0x03");
  publish = λ n content. ok (codes "ipfs://pack");
  submit = λ n input. ok (codes "0x04");
  mandatory_scenarios = codes "payment-proof-replay" ∷ [];
  shipyard_agent_id = codes "us";
  tool_agent_id = codes "tool";
  tool_version = codes "1";
  chain_id = 1;
  provider_signer_address = some (codes "signer");
  procurement_allowed_assets = codes "0xtoken" ∷ [];
  home_chain_id = 1;
  cross_chain_payers = [];
  refunds = true;
  settlement_legs = false;
  attestor_address = codes "0xattestor";
}

abbrev pub start_world : RunStatus → World
start_world status = record {
  run = some (paid_run status);
  row = none;
  pack = none;
  attestation = none;
  events = [];
  calls = [];
}
