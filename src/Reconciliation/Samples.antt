-- ===== src/Reconciliation/Samples.antt =====
-- A run that awaits payment, for the tests.
use ship_yard.Prelude.{none, some, [], ◌∷◌, Text, codes}
use ship_yard.Run.{RunAggregate, payment_required, next_run, event_of}
use ship_yard.Quote.{Quote, QuoteRequest}
use ship_yard.Settlement.{verify_settlement}
use ship_yard.Settlement.Samples.{plain, paid_order, payment_proof, receipt_of}
use ship_yard.Reconciliation.Store.{
  ExpiredCommit, FundableRun, VerifiedCustomerPayment, Store, FundedCommit, set_funded, set_expired,
}
use ship_yard.Reconciliation.Reconciler.{Ports, funding_command, expiry_command}

abbrev pub request : QuoteRequest
request = record {
  organization_id = [];
  requester_address = 3 ∷ [];
  target_agent_id = [];
  target_service_id = [];
  target_version_hash = [];
  previous_version_hash = none;
  policy_hash = [];
  x402_endpoint = [];
  open_api_url = [];
  maximum_customer_budget_atomic = 50 ∷ [];
}

abbrev pub quote : Quote
quote = record {
  unsigned = record {
    id = codes "quote_1";
    request = request;
    capability_snapshot = record {
      chain_id = 56;
      token_address = 2 ∷ [];
      receiving_address = 4 ∷ [];
    };
    line_items = record {
      base_orchestration_fee_atomic = [];
      mandatory_tool_budget_atomic = [];
      dynamic_tool_budget_atomic = [];
      model_infrastructure_reserve_atomic = [];
      chain_storage_reserve_atomic = [];
      risk_support_reserve_atomic = [];
    };
    total_atomic_amount = 50 ∷ [];
    refundable_tool_budget_atomic = [];
    created_at = 1 ∷ [];
    expires_at = 9 ∷ [];
  };
  quote_commitment = [];
}

abbrev pub waiting_run : RunAggregate
waiting_run = record {
  id = codes "run";
  status = payment_required;
  result = none;
  revision = 2;
  created_at = 5 ∷ [];
  updated_at = 7 ∷ [];
  applied_idempotency_keys = [];
}

abbrev pub context : FundableRun
context = record {
  run = waiting_run;
  quote = quote;
  payment_order = paid_order;
  customer_payment_proof_hash = none;
  customer_payment = none;
}

abbrev pub store : Store
store = record { rows = context ∷ []; run_events = []; outbox_events = []; orchestrator_jobs = [] }

abbrev pub no_hash : Text → Text
no_hash text = text

abbrev pub ports : Ports
ports = record {
  get_order_status = λ id. some paid_order;
  get_order_proof = λ id. some payment_proof;
  get_transaction_receipt = λ chain hash. some (some (receipt_of 1));
}

abbrev pub payment : VerifiedCustomerPayment
payment = record {
  run_id = codes "run";
  order = paid_order;
  proof = payment_proof;
  receipt = receipt_of 1;
  proof_hash =
      (verify_settlement plain paid_order payment_proof (receipt_of 1) (record {
        chain_id = 56;
        token_address = 2 ∷ [];
        payer_address = 3 ∷ [];
        recipient_address = 4 ∷ [];
        atomic_amount = 50 ∷ [];
        order_id = 7 ∷ [];
      })).payment_proof_hash_material;
  verified_at = 9 ∷ [];
}

abbrev pub funding : FundedCommit
funding = record {
  previous_revision = 2;
  run = next_run waiting_run (funding_command waiting_run payment_proof (9 ∷ []));
  event = event_of waiting_run (funding_command waiting_run payment_proof (9 ∷ []));
  payment = payment;
}

abbrev pub paid_store : Store
paid_store = record {
  rows = set_funded funding context ∷ [];
  run_events = funding.event ∷ [];
  outbox_events = funding.event ∷ [];
  orchestrator_jobs = codes "run" ∷ [];
}

-- An expiry at 2000, more than a second behind the run's last event.
abbrev pub expiry : ExpiredCommit
expiry = record {
  previous_revision = 2;
  run = next_run waiting_run (expiry_command waiting_run (codes "expired-run") (2000 ∷ []));
  event = event_of waiting_run (expiry_command waiting_run (codes "expired-run") (2000 ∷ []));
}

abbrev pub expired_rows : Store
expired_rows = record {
  rows = set_expired expiry context ∷ [];
  run_events = expiry.event ∷ [];
  outbox_events = expiry.event ∷ [];
  orchestrator_jobs = [];
}

-- A command that was applied already expires nothing.
abbrev pub seen_run : RunAggregate
seen_run = record waiting_run { applied_idempotency_keys = codes "expired-run" ∷ [] }

abbrev pub seen_context : FundableRun
seen_context = record context { run = seen_run }

abbrev pub seen_store : Store
seen_store = record store { rows = seen_context ∷ [] }

abbrev pub seen_funding : FundedCommit
seen_funding = record {
  previous_revision = 2;
  run = next_run seen_run (funding_command seen_run payment_proof (9 ∷ []));
  event = event_of seen_run (funding_command seen_run payment_proof (9 ∷ []));
  payment = payment;
}

abbrev pub seen_paid_store : Store
seen_paid_store = record {
  rows = set_funded seen_funding seen_context ∷ [];
  run_events = seen_funding.event ∷ [];
  outbox_events = seen_funding.event ∷ [];
  orchestrator_jobs = codes "run" ∷ [];
}
