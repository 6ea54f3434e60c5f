-- ===== src/Plan/Tests.antt =====
-- A proposal above the ceiling that names a mandatory scenario again.
use ship_yard.Prelude.{[], ◌∷◌, codes}
use ship_yard.Plan.{RiskClassification, CompiledTestPlan, high}

abbrev proposal : RiskClassification
proposal = record {
  risk_level = high;
  proposed_scenarios = codes "b" ∷ codes "a" ∷ [];
  proposed_tool_budget_atomic = codes "90";
  rationale = codes "r";
}

abbrev plan : CompiledTestPlan
plan = record {
  scenarios = codes "a" ∷ codes "b" ∷ [];
  tool_budget_atomic = codes "60";
  risk_level = high;
  rationale = codes "r";
}
