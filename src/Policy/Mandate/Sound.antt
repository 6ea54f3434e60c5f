-- ===== src/Policy/Mandate/Sound.antt =====
-- What holds of a mandate that the schema returned.
use ship_yard.Prelude.{ℕ, ◌≡◌, ◌≤◌, false, some, All, Distinct, Text}
use ship_yard.Money.{parse_atomic_amount}
use ship_yard.Policy.Purchase.{RunMandate}
use ship_yard.Policy.Forbidden.{is_forbidden_host}

-- The limits are amounts with the single purchase and the approval threshold within the total; no
-- tool, host or scenario is listed twice; and no host is forbidden.
pub record IsMandate (is_ip : Text → ℕ) (m : RunMandate) : Type 0 where
  pub total : ℕ
  pub single : ℕ
  pub threshold : ℕ
  pub total_read : parse_atomic_amount m.maximum_total_spend ≡ some total
  pub single_read : parse_atomic_amount m.maximum_single_purchase ≡ some single
  pub threshold_read : parse_atomic_amount m.additional_spend_approval_threshold ≡ some threshold
  pub single_bounded : single ≤ total
  pub threshold_bounded : threshold ≤ total
  pub tools : Distinct m.allowed_tool_agent_ids
  pub hosts : Distinct m.allowed_hosts
  pub scenarios : Distinct m.required_scenarios
  pub reachable : All (λ h. is_forbidden_host is_ip h ≡ false) m.allowed_hosts
