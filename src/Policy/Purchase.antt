-- ===== src/Policy/Purchase.antt =====
-- packages/policy-engine/src/purchase-authorization.ts: whether a run may buy from a tool.
pub mod Authorized
pub mod Spend
use ship_yard.Prelude.{
  ℕ, ◌+◌, Bool, true, false, not, ◌&&◌, ◌||◌, Option, none, some, List, [], ◌∷◌, ◌++◌, Text, length,
  text_eq, includes, ltb, leb, ◌==◌, is_empty, pushed, unique, Result, ok, err, ◌>>=◌, ◌>>◌,
}
use ship_yard.Money.{parse_atomic_amount, to_string}
use ship_yard.Run.{RunStatus, is_terminal_run_status}
use ship_yard.Policy.Hosts.{canonicalize_host}

pub data PurchaseDenialCode : Type 0 where
  run_terminal mandate_expired tool_not_allowed host_not_allowed : PurchaseDenialCode
  self_dealing_tool self_dealing_host invalid_amount single_purchase_limit : PurchaseDenialCode
  total_spend_limit tool_call_limit retry_limit : PurchaseDenialCode
  additional_approval_required invalid_idempotency_key : PurchaseDenialCode

abbrev pub denial_index : PurchaseDenialCode → ℕ
denial_index run_terminal = 0
denial_index mandate_expired = 1
denial_index tool_not_allowed = 2
denial_index host_not_allowed = 3
denial_index self_dealing_tool = 4
denial_index self_dealing_host = 5
denial_index invalid_amount = 6
denial_index single_purchase_limit = 7
denial_index total_spend_limit = 8
denial_index tool_call_limit = 9
denial_index retry_limit = 10
denial_index additional_approval_required = 11
denial_index invalid_idempotency_key = 12

-- `===` on the codes
abbrev pub same_denial : PurchaseDenialCode → PurchaseDenialCode → Bool
same_denial a b = denial_index a == denial_index b

-- `RunMandate`: what `runMandateSchema` returns. Its amounts are texts that the schema matched with
-- the pattern of `parseAtomicAmount`.
pub record RunMandate : Type 0 where
  pub maximum_total_spend : Text
  pub maximum_single_purchase : Text
  pub maximum_tool_calls : ℕ
  pub maximum_retries_per_tool : ℕ
  pub allowed_tool_agent_ids : List Text
  pub allowed_hosts : List Text
  pub required_scenarios : List Text
  pub additional_spend_approval_threshold : Text
  pub deadline : ℕ

pub record PurchaseIntent : Type 0 where
  pub run_id : Text
  pub tool_agent_id : Text
  pub provider_service_id : Text
  pub host : Text
  pub atomic_amount : Text
  pub idempotency_key : Text

pub record PurchaseContext : Type 0 where
  pub now_epoch_seconds : ℕ
  pub run_status : RunStatus
  pub current_total_spend : Text
  pub completed_tool_calls : ℕ
  pub prior_attempts_for_tool : ℕ
  pub shipyard_agent_id : Text
  pub shipyard_controlled_hosts : List Text
  pub additional_spend_approved : Bool

pub record Audit : Type 0 where
  pub run_id : Text
  pub tool_agent_id : Text
  pub provider_service_id : Text
  pub host : Text
  pub atomic_amount : Text
  pub idempotency_key : Text
  pub evaluated_at : ℕ

pub record PurchaseAuthorization : Type 0 where
  pub authorized : Bool
  pub denial_codes : List PurchaseDenialCode
  pub projected_total_spend : Text
  pub audit : Audit

pub data PolicyError : Type 0 where
  not_an_amount not_a_host : PolicyError

-- A `none` thrown.
abbrev pub or_throw : {A : Type 0} → PolicyError → Option A → Result PolicyError A
or_throw e none = err e
or_throw e (some a) = ok a

-- `hosts.map((value) => canonicalizeHost(value))`
unfoldable pub canonical_hosts : List Text → Result PolicyError (List Text)
canonical_hosts [] = ok []
canonical_hosts (h ∷ hs) = do
  c ← or_throw not_a_host (canonicalize_host h)
  cs ← canonical_hosts hs
  ok (c ∷ cs)

-- `amount` behind its `try`: it stays zero where the text is no amount.
abbrev pub amount_or_zero : Option ℕ → ℕ
amount_or_zero none = 0
amount_or_zero (some n) = n

-- `host` behind its `try`.
abbrev pub host_or : Text → Option Text → Text
host_or host none = host
host_or host (some h) = h

abbrev pub is_none : {A : Type 0} → Option A → Bool
is_none none = true
is_none (some _) = false

-- What the checks compare: the amounts read, the canonical host and the controlled hosts.
pub record Figures : Type 0 where
  pub current : ℕ
  pub amount : ℕ
  pub host : Text
  pub controlled : List Text
  pub single : ℕ
  pub total : ℕ
  pub threshold : ℕ

-- The conditions that push a code, in order. An amount that does not parse is zero, so it is caught
-- with an amount of zero.
abbrev pub denial_checks :
    RunMandate → PurchaseIntent → PurchaseContext → Figures → List (Bool × PurchaseDenialCode)
denial_checks mandate intent context f =
    (f.amount == 0, invalid_amount)
    ∷ (is_none (canonicalize_host intent.host), host_not_allowed)
    ∷ (is_terminal_run_status context.run_status, run_terminal)
    ∷ (ltb mandate.deadline context.now_epoch_seconds, mandate_expired)
    ∷ (not (includes mandate.allowed_tool_agent_ids intent.tool_agent_id), tool_not_allowed)
    ∷ (not (includes mandate.allowed_hosts f.host), host_not_allowed)
    ∷ (text_eq intent.tool_agent_id context.shipyard_agent_id, self_dealing_tool)
    ∷ (includes f.controlled f.host, self_dealing_host)
    ∷ (ltb f.single f.amount, single_purchase_limit)
    ∷ (ltb f.total (f.current + f.amount), total_spend_limit)
    ∷ (leb mandate.maximum_tool_calls context.completed_tool_calls, tool_call_limit)
    ∷ (ltb mandate.maximum_retries_per_tool context.prior_attempts_for_tool, retry_limit)
    ∷ (
      ltb f.threshold (f.current + f.amount) && not context.additional_spend_approved,
      additional_approval_required,
    )
    ∷ (
      ltb (length intent.idempotency_key) 16 || ltb 200 (length intent.idempotency_key),
      invalid_idempotency_key,
    )
    ∷ []

abbrev pub decide : RunMandate → PurchaseIntent → PurchaseContext → Figures → PurchaseAuthorization
decide mandate intent context f =
    let codes = pushed (denial_checks mandate intent context f) in
    record {
      authorized = is_empty codes;
      denial_codes = unique same_denial codes;
      projected_total_spend = to_string (f.current + f.amount);
      audit = record {
        run_id = intent.run_id;
        tool_agent_id = intent.tool_agent_id;
        provider_service_id = intent.provider_service_id;
        host = f.host;
        atomic_amount = intent.atomic_amount;
        idempotency_key = intent.idempotency_key;
        evaluated_at = context.now_epoch_seconds;
      };
    }

-- What the call reads before it decides; it throws where a text is no amount or no host.
unfoldable pub read_figures :
    RunMandate → PurchaseIntent → PurchaseContext → Result PolicyError Figures
read_figures mandate intent context = do
  current ← or_throw not_an_amount (parse_atomic_amount context.current_total_spend)
  controlled ← canonical_hosts context.shipyard_controlled_hosts
  single ← or_throw not_an_amount (parse_atomic_amount mandate.maximum_single_purchase)
  total ← or_throw not_an_amount (parse_atomic_amount mandate.maximum_total_spend)
  threshold ←
      or_throw not_an_amount (parse_atomic_amount mandate.additional_spend_approval_threshold)
  ok (record {
    current = current;
    amount = amount_or_zero (parse_atomic_amount intent.atomic_amount);
    host = host_or intent.host (canonicalize_host intent.host);
    controlled = controlled;
    single = single;
    total = total;
    threshold = threshold;
  })

-- `authorizePurchase`
unfoldable pub authorize_purchase :
    RunMandate → PurchaseIntent → PurchaseContext → Result PolicyError PurchaseAuthorization
authorize_purchase mandate intent context = do
  f ← read_figures mandate intent context
  ok (decide mandate intent context f)
