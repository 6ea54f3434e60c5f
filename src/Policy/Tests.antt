-- ===== src/Policy/Tests.antt =====
-- A purchase by a run that executes, under a small mandate.
use ship_yard.Policy.Forbidden.{
  is_forbidden_host, is_forbidden_name, is_forbidden_ipv4, is_forbidden_ipv6, is_forbidden_pair,
  ends_with, split_on, number_of, extract_ipv4_mapped_address, behind, read_hex, dotted,
}
use ship_yard.Policy.Forbidden.Mapped.{is_forbidden_ipv4-dotted}
use ship_yard.Prelude.{
  ◌%◌, ◌/◌, ◌≤◌, ◌≡◌, ◌↔◌, refl, true, false, some, [], ◌∷◌, All, codes, text_eq, includes, ok,
  unique, unseen, has, to_lower, lt_wf, dec_lt,
}
use ship_yard.Money.{parse_atomic_amount, read_digits, to_string}
use ship_yard.Run.{executing, is_terminal_run_status, has_status}
use ship_yard.Policy.Hosts.{
  canonicalize_host, canonical, has_unit, trim_start, trim_end, drop_last_dot,
}
use ship_yard.Policy.Mandate.{is_well_formed, parse_run_mandate}
use ship_yard.Policy.Purchase.{
  RunMandate, PurchaseIntent, PurchaseContext, PurchaseAuthorization, Figures, decide,
  authorize_purchase, read_figures, canonical_hosts, invalid_idempotency_key, host_not_allowed,
}
use ship_yard.Policy.Purchase.Authorized.{AreRead, IsAllowed, authorize_purchase-authorized_iff}
use ship_yard.Policy.Purchase.Spend.{start, buy, sum_of_intents, amount_of_intent, Spending-maximum}

abbrev mandate : RunMandate
mandate = record {
  maximum_total_spend = codes "9";
  maximum_single_purchase = codes "5";
  maximum_tool_calls = 3;
  maximum_retries_per_tool = 1;
  allowed_tool_agent_ids = codes "tool" ∷ [];
  allowed_hosts = codes "a.b" ∷ [];
  required_scenarios = codes "replay" ∷ [];
  additional_spend_approval_threshold = codes "8";
  deadline = 100;
}

abbrev intent : PurchaseIntent
intent = record {
  run_id = codes "run";
  tool_agent_id = codes "tool";
  provider_service_id = codes "svc";
  host = codes " A.b. ";
  atomic_amount = codes "4";
  idempotency_key = codes "purchase-00000001";
}

abbrev context : PurchaseContext
context = record {
  now_epoch_seconds = 50;
  run_status = executing;
  current_total_spend = codes "0";
  completed_tool_calls = 0;
  prior_attempts_for_tool = 0;
  shipyard_agent_id = codes "us";
  shipyard_controlled_hosts = codes "c.d" ∷ [];
  additional_spend_approved = false;
}

abbrev figures : Figures
figures = record {
  current = 0;
  amount = 4;
  host = codes "a.b";
  controlled = codes "c.d" ∷ [];
  single = 5;
  total = 9;
  threshold = 8;
}

abbrev authorization : PurchaseAuthorization
authorization = decide mandate intent context figures

machine : Unit {0}
unfolding codes text_eq includes to_lower parse_atomic_amount read_digits to_string lt_wf dec_lt
    unique unseen has is_terminal_run_status has_status canonicalize_host canonical has_unit
    trim_start trim_end drop_last_dot authorize_purchase read_figures canonical_hosts
machine = tt

returns : authorize_purchase mandate intent context ≡ ok authorization
unfolding machine
returns = refl

granted : authorization.authorized ≡ true
unfolding machine
granted = refl

-- A short key and a host that is no host, which is reported once.
denied :
    (decide mandate
      (record intent { idempotency_key = codes "k"; host = codes "a/b" })
      context
      (record figures { host = codes "a/b" })).denial_codes
    ≡ host_not_allowed ∷ invalid_idempotency_key ∷ []
unfolding machine
denied = refl

authorize_purchase-authorized_iff_example :
    ((authorize_purchase mandate intent context ≡ ok authorization)
      × (authorization.authorized ≡ true))
    ↔ ((f : Figures) × AreRead mandate context f
        × IsAllowed mandate intent context f
        × (authorization ≡ decide mandate intent context f))
authorize_purchase-authorized_iff_example =
    authorize_purchase-authorized_iff mandate intent context authorization

first_spend : context.current_total_spend ≡ to_string 0
unfolding machine
first_spend = refl

single_read : parse_atomic_amount mandate.maximum_single_purchase ≡ some 5
unfolding machine
single_read = refl

total_read : parse_atomic_amount mandate.maximum_total_spend ≡ some 9
unfolding machine
total_read = refl

Spending-maximum_example :
    (authorization.projected_total_spend ≡ to_string (sum_of_intents (intent ∷ [])))
    × (sum_of_intents (intent ∷ []) ≤ 9)
    × All (λ i. amount_of_intent i ≤ 5) (intent ∷ [])
Spending-maximum_example =
    Spending-maximum 5 9 single_read total_read
      (buy start intent context authorization first_spend returns granted)

mandate_machine : Unit {0}
unfolding machine is_forbidden_host is_forbidden_name ends_with is_well_formed parse_run_mandate
mandate_machine = tt

address_machine : Unit {0}
unfolding machine is_forbidden_host is_forbidden_name is_forbidden_ipv4 is_forbidden_ipv6
    is_forbidden_pair ends_with split_on number_of extract_ipv4_mapped_address behind read_hex
    dotted
address_machine = tt

-- The metadata address and a loopback address, mapped; and an address that is not forbidden.
mapped_metadata : is_forbidden_host (λ s. 6) (codes "::FFFF:a9fe:a9fe") ≡ true
unfolding address_machine
mapped_metadata = refl

mapped_loopback : is_forbidden_host (λ s. 6) (codes "::127.0.0.1") ≡ true
unfolding address_machine
mapped_loopback = refl

mapped_public : is_forbidden_host (λ s. 6) (codes "::ffff:0808:0808") ≡ false
unfolding address_machine
mapped_public = refl

-- A link-local address outside fe80::/16 is let through.
link_local_passes : is_forbidden_host (λ s. 6) (codes "fe90::1") ≡ false
unfolding address_machine
link_local_passes = refl

is_forbidden_ipv4-dotted_example :
    is_forbidden_ipv4 (dotted 0xa9fe 0xa9fe)
    ≡ is_forbidden_pair (some (0xa9fe / 256 % 256)) (some (0xa9fe % 256))
is_forbidden_ipv4-dotted_example = is_forbidden_ipv4-dotted 0xa9fe 0xa9fe
