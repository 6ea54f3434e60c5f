-- ===== src/Policy/Mandate.antt =====
-- packages/policy-engine/src/mandate.ts: `runMandateSchema`.
pub mod Sound
use ship_yard.Prelude.{
  ℕ, Bool, true, false, not, ◌&&◌, ◌||◌, Option, none, some, List, [], ◌∷◌, Text, text_eq, length,
  ltb, leb, ◌==◌, all_units, unique, pushed, is_empty, Result, ok, err, ◌>>=◌, ◌>>◌, throw_if,
}
use ship_yard.Money.{is_digit, parse_atomic_amount}
use ship_yard.Policy.Purchase.{RunMandate, PolicyError, is_none, canonical_hosts}
use ship_yard.Policy.Forbidden.{is_forbidden_host}

pub data MandateIssue : Type 0 where
  single_over_total threshold_over_total : MandateIssue
  repeated_tools repeated_hosts repeated_scenarios forbidden_host : MandateIssue

pub data MandateError : Type 0 where
  malformed bad_host : MandateError
  issues : List MandateIssue → MandateError

-- `z.string().min(1).max(256)`
abbrev pub is_tool_id : Text → Bool
is_tool_id s = leb 1 (length s) && leb (length s) 256

abbrev pub is_scenario_start : ℕ → Bool
is_scenario_start c = (leb b'a' c && leb c b'z') || is_digit c

abbrev pub is_scenario_unit : ℕ → Bool
is_scenario_unit c = is_scenario_start c || c == b'_' || c == b'.' || c == b'-'

-- /^[a-z0-9][a-z0-9_.-]{1,127}$/
abbrev pub is_scenario_id : Text → Bool
is_scenario_id [] = false
is_scenario_id (c ∷ s) =
    is_scenario_start c && leb 1 (length s) && leb (length s) 127 && all_units is_scenario_unit s

abbrev pub every : (Text → Bool) → List Text → Bool
every p [] = true
every p (x ∷ xs) = p x && every p xs

-- `.min(1).max(100)` on an array
abbrev pub is_sized : List Text → Bool
is_sized xs = leb 1 (length xs) && leb (length xs) 100

abbrev pub is_amount : Text → Bool
is_amount s = not (is_none (parse_atomic_amount s))

-- The fields by themselves; the numbers are integers of at least 0 by their type here.
unfoldable pub is_well_formed : RunMandate → Bool
is_well_formed m =
    is_amount m.maximum_total_spend
    && is_amount m.maximum_single_purchase
    && leb 1 m.maximum_tool_calls
    && leb m.maximum_tool_calls 100
    && leb m.maximum_retries_per_tool 5
    && every is_tool_id m.allowed_tool_agent_ids
    && is_sized m.allowed_tool_agent_ids
    && is_sized m.allowed_hosts
    && every is_scenario_id m.required_scenarios
    && is_sized m.required_scenarios
    && is_amount m.additional_spend_approval_threshold
    && leb 1 m.deadline

-- `BigInt(a) > BigInt(b)`, on amounts that the fields' pattern matched.
abbrev pub exceeds : Option ℕ → Option ℕ → Bool
exceeds (some a) (some b) = ltb b a
exceeds (some a) none = false
exceeds none b = false

-- `new Set(values).size !== values.length`
abbrev pub repeats : List Text → Bool
repeats values = not (length (unique text_eq values) == length values)

abbrev pub some_forbidden : (Text → ℕ) → List Text → Bool
some_forbidden is_ip [] = false
some_forbidden is_ip (h ∷ hs) = is_forbidden_host is_ip h || some_forbidden is_ip hs

-- The conditions of `superRefine`, in order. It adds one issue for each forbidden host; here one
-- stands for all of them.
abbrev pub refinement : (Text → ℕ) → RunMandate → List (Bool × MandateIssue)
refinement is_ip m =
    (
      exceeds (parse_atomic_amount m.maximum_single_purchase)
          (parse_atomic_amount m.maximum_total_spend),
      single_over_total,
    )
    ∷ (
      exceeds (parse_atomic_amount m.additional_spend_approval_threshold)
          (parse_atomic_amount m.maximum_total_spend),
      threshold_over_total,
    )
    ∷ (repeats m.allowed_tool_agent_ids, repeated_tools)
    ∷ (repeats m.allowed_hosts, repeated_hosts)
    ∷ (repeats m.required_scenarios, repeated_scenarios)
    ∷ (some_forbidden is_ip m.allowed_hosts, forbidden_host)
    ∷ []

abbrev pub hosts_or_throw : Result PolicyError (List Text) → Result MandateError (List Text)
hosts_or_throw (err e) = err bad_host
hosts_or_throw (ok hosts) = ok hosts

-- `runMandateSchema.parse`: the hosts in canonical form, if nothing was found wrong.
unfoldable pub parse_run_mandate : (Text → ℕ) → RunMandate → Result MandateError RunMandate
parse_run_mandate is_ip input = do
  hosts ← hosts_or_throw (canonical_hosts input.allowed_hosts)
  let m = record input { allowed_hosts = hosts }
  throw_if (not (is_well_formed m)) malformed
  throw_if (not (is_empty (pushed (refinement is_ip m)))) (issues (pushed (refinement is_ip m)))
  ok m
