-- ===== src/Plan/Bounds.antt =====
-- What a proposal can change of a plan.
use ship_yard.Prelude.{ℕ, ◌≤◌, ◌≡◌, ◌↔◌, ◌⊎◌, some, List, Text, OneOf, Distinct}
use ship_yard.Money.{parse_atomic_amount}
use ship_yard.Plan.{RiskClassification, CompiledTestPlan}

-- The plan that the proposal, the mandatory scenarios and the ceiling make.
pub record IsBounded (proposal : RiskClassification) (mandatory : List Text) (maximum : Text)
    (plan : CompiledTestPlan) : Type 0 where
  pub scenarios :
      (s : Text)
      → OneOf s plan.scenarios ↔ (OneOf s mandatory ⊎ OneOf s proposal.proposed_scenarios)
  pub each_once : Distinct plan.scenarios
  pub budget : ℕ
  pub ceiling : ℕ
  pub proposed : ℕ
  pub budget_read : parse_atomic_amount plan.tool_budget_atomic ≡ some budget
  pub ceiling_read : parse_atomic_amount maximum ≡ some ceiling
  pub proposed_read : parse_atomic_amount proposal.proposed_tool_budget_atomic ≡ some proposed
  pub under_ceiling : budget ≤ ceiling
  pub under_proposed : budget ≤ proposed
  pub one_of_both : (budget ≡ ceiling) ⊎ (budget ≡ proposed)
