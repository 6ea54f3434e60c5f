-- ===== src/Plan.antt =====
-- packages/risk-classifier/src/test-plan-compiler.ts: the plan that a model's proposal compiles to.
pub mod Bounds
mod Tests
use ship_yard.Prelude.{
  ℕ, Option, none, some, List, [], ◌∷◌, ◌++◌, Text, text_eq, unique, ltb, if◌then◌else◌, is_empty,
  Result, ok, err, ◌>>=◌, ◌>>◌, throw_if,
}
use ship_yard.Money.{parse_atomic_amount, to_string}

pub data RiskLevel : Type 0 where
  low medium high : RiskLevel

-- `RiskClassification`: what `riskClassificationSchema` returns.
pub record RiskClassification : Type 0 where
  pub risk_level : RiskLevel
  pub proposed_scenarios : List Text
  pub proposed_tool_budget_atomic : Text
  pub rationale : Text

pub record CompiledTestPlan : Type 0 where
  pub scenarios : List Text
  pub tool_budget_atomic : Text
  pub risk_level : RiskLevel
  pub rationale : Text

pub data PlanError : Type 0 where
  no_mandatory_scenario not_an_amount : PlanError

-- `BigInt` of an atomic amount, whose pattern the schemas have matched.
abbrev pub atomic : Option ℕ → Result PlanError ℕ
atomic none = err not_an_amount
atomic (some n) = ok n

-- `proposedBudget > ceiling ? ceiling : proposedBudget`
unfoldable pub clamp : ℕ → ℕ → ℕ
clamp proposed ceiling = if ltb ceiling proposed then ceiling else proposed

-- `compileTestPlan`
unfoldable pub compile_test_plan :
    RiskClassification → List Text → Text → Result PlanError CompiledTestPlan
compile_test_plan proposal mandatory maximum = do
  throw_if (is_empty mandatory) no_mandatory_scenario
  proposed ← atomic (parse_atomic_amount proposal.proposed_tool_budget_atomic)
  ceiling ← atomic (parse_atomic_amount maximum)
  ok (record {
    scenarios = unique text_eq (mandatory ++ proposal.proposed_scenarios);
    tool_budget_atomic = to_string (clamp proposed ceiling);
    risk_level = proposal.risk_level;
    rationale = proposal.rationale;
  })
