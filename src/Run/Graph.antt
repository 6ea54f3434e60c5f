-- ===== src/Run/Graph.antt =====
-- The transition table of docs/state-machine.md as a relation, against `TRANSITIONS` of
-- packages/run-domain/src/run-state-machine.ts.
use ship_yard.Prelude.{
  ◌≡◌, ◌↔◌, inl, inr, refl, sym, arith, true, List, [], ◌∷◌, Any, OneOf, Bool-cases,
}
use ship_yard.Run.States.{
  RunStatus, draft, quoted, payment_required, funded, analyzing, plan_compiled, procuring,
  executing, replanning, evidence_building, attesting, delivered_pass, delivered_conditional,
  delivered_fail, delivered_inconclusive, cancelled, expired, RunActor, requester, quote_engine,
  merchant_gateway, payment_reconciler, orchestrator, policy_engine, procurement_worker,
  execution_worker, evidence_worker, attestor, system, same_status, TransitionRule, transitions,
  find_rule, rule_permits, permits,
}
use ship_yard.Run.Names.{same_status_iff, has_actor_iff}

-- Some rule of the list names the status and the actor.
abbrev Named : RunActor → RunStatus → List TransitionRule → Type 0
Named actor to = Any (λ r. (to ≡ r.to) × OneOf actor r.actors)

Named-of_permits :
    (rs : List TransitionRule) (actor : RunActor) (to : RunStatus)
    → rule_permits (find_rule to rs) actor ≡ true
    → Named actor to rs
unfolding find_rule
Named-of_permits [] actor to h = cc
Named-of_permits (r ∷ rs) actor to h = elim (Bool-cases (same_status r.to to)) [
  | inl here ↦
      inl (sym ((same_status_iff r.to to).0 here), (has_actor_iff r.actors actor).0 (rw here at h))
  | inr there ↦ inr (Named-of_permits rs actor to (rw there at h))
]

-- The rows of the table: who moves a run from where to where.
pub data Edge : RunStatus → RunActor → RunStatus → Type 0 where
  quote : Edge draft quote_engine quoted
  require_payment : Edge quoted merchant_gateway payment_required
  fund : Edge payment_required payment_reconciler funded
  analyze : Edge funded orchestrator analyzing
  compile : Edge analyzing policy_engine plan_compiled
  conclude_from_analyzing_by_orchestrator : Edge analyzing orchestrator evidence_building
  conclude_from_analyzing_by_system : Edge analyzing system evidence_building
  procure_from_plan_compiled : Edge plan_compiled procurement_worker procuring
  conclude_from_plan_compiled_by_policy_engine : Edge plan_compiled policy_engine evidence_building
  conclude_from_plan_compiled_by_system : Edge plan_compiled system evidence_building
  execute_from_procuring_by_procurement_worker : Edge procuring procurement_worker executing
  execute_from_procuring_by_execution_worker : Edge procuring execution_worker executing
  replan_from_procuring : Edge procuring orchestrator replanning
  conclude_from_procuring_by_procurement_worker :
      Edge procuring procurement_worker evidence_building
  conclude_from_procuring_by_system : Edge procuring system evidence_building
  replan_from_executing : Edge executing orchestrator replanning
  conclude_from_executing_by_execution_worker : Edge executing execution_worker evidence_building
  conclude_from_executing_by_system : Edge executing system evidence_building
  procure_from_replanning_by_policy_engine : Edge replanning policy_engine procuring
  procure_from_replanning_by_procurement_worker : Edge replanning procurement_worker procuring
  execute_from_replanning_by_policy_engine : Edge replanning policy_engine executing
  execute_from_replanning_by_execution_worker : Edge replanning execution_worker executing
  conclude_from_replanning_by_orchestrator : Edge replanning orchestrator evidence_building
  conclude_from_replanning_by_system : Edge replanning system evidence_building
  attest : Edge evidence_building evidence_worker attesting
  deliver_pass : Edge attesting attestor delivered_pass
  deliver_conditional : Edge attesting attestor delivered_conditional
  deliver_fail : Edge attesting attestor delivered_fail
  deliver_inconclusive : Edge attesting attestor delivered_inconclusive
  withdraw_draft : Edge draft requester cancelled
  cancel_draft : Edge draft system cancelled
  expire_draft : Edge draft system expired
  withdraw_quoted : Edge quoted requester cancelled
  cancel_quoted : Edge quoted system cancelled
  expire_quoted : Edge quoted system expired
  withdraw_payment_required : Edge payment_required requester cancelled
  cancel_payment_required : Edge payment_required system cancelled
  expire_payment_required : Edge payment_required system expired

Edge_of_Named :
    (from : RunStatus) (actor : RunActor) (to : RunStatus)
    → Named actor to (transitions from)
    → Edge from actor to
Edge_of_Named draft actor to h = grind (arith, withdraw_draft, cancel_draft, expire_draft, quote)
Edge_of_Named quoted actor to h =
    grind (arith, withdraw_quoted, cancel_quoted, expire_quoted, require_payment)
Edge_of_Named payment_required actor to h =
    grind (arith, withdraw_payment_required, cancel_payment_required, expire_payment_required, fund)
Edge_of_Named funded actor to h = grind (arith, analyze)
Edge_of_Named analyzing actor to h =
    grind
      (arith, compile, conclude_from_analyzing_by_orchestrator, conclude_from_analyzing_by_system)
Edge_of_Named plan_compiled actor to h = grind (
  arith, procure_from_plan_compiled, conclude_from_plan_compiled_by_policy_engine,
  conclude_from_plan_compiled_by_system,
)
Edge_of_Named procuring actor to h = grind (
  arith, execute_from_procuring_by_procurement_worker, execute_from_procuring_by_execution_worker,
  replan_from_procuring, conclude_from_procuring_by_procurement_worker,
  conclude_from_procuring_by_system,
)
Edge_of_Named executing actor to h = grind (
  arith, replan_from_executing, conclude_from_executing_by_execution_worker,
  conclude_from_executing_by_system,
)
Edge_of_Named replanning actor to h = grind (
  arith, procure_from_replanning_by_policy_engine, procure_from_replanning_by_procurement_worker,
  execute_from_replanning_by_policy_engine, execute_from_replanning_by_execution_worker,
  conclude_from_replanning_by_orchestrator, conclude_from_replanning_by_system,
)
Edge_of_Named evidence_building actor to h = grind (arith, attest)
Edge_of_Named attesting actor to h =
    grind (arith, deliver_pass, deliver_conditional, deliver_fail, deliver_inconclusive)
Edge_of_Named delivered_pass actor to h = elim h [ ]
Edge_of_Named delivered_conditional actor to h = elim h [ ]
Edge_of_Named delivered_fail actor to h = elim h [ ]
Edge_of_Named delivered_inconclusive actor to h = elim h [ ]
Edge_of_Named cancelled actor to h = elim h [ ]
Edge_of_Named expired actor to h = elim h [ ]

permits_of_Edge :
    {from : RunStatus} {actor : RunActor} {to : RunStatus}
    → Edge from actor to
    → permits from actor to ≡ true
unfolding permits
permits_of_Edge quote = refl
permits_of_Edge require_payment = refl
permits_of_Edge fund = refl
permits_of_Edge analyze = refl
permits_of_Edge compile = refl
permits_of_Edge conclude_from_analyzing_by_orchestrator = refl
permits_of_Edge conclude_from_analyzing_by_system = refl
permits_of_Edge procure_from_plan_compiled = refl
permits_of_Edge conclude_from_plan_compiled_by_policy_engine = refl
permits_of_Edge conclude_from_plan_compiled_by_system = refl
permits_of_Edge execute_from_procuring_by_procurement_worker = refl
permits_of_Edge execute_from_procuring_by_execution_worker = refl
permits_of_Edge replan_from_procuring = refl
permits_of_Edge conclude_from_procuring_by_procurement_worker = refl
permits_of_Edge conclude_from_procuring_by_system = refl
permits_of_Edge replan_from_executing = refl
permits_of_Edge conclude_from_executing_by_execution_worker = refl
permits_of_Edge conclude_from_executing_by_system = refl
permits_of_Edge procure_from_replanning_by_policy_engine = refl
permits_of_Edge procure_from_replanning_by_procurement_worker = refl
permits_of_Edge execute_from_replanning_by_policy_engine = refl
permits_of_Edge execute_from_replanning_by_execution_worker = refl
permits_of_Edge conclude_from_replanning_by_orchestrator = refl
permits_of_Edge conclude_from_replanning_by_system = refl
permits_of_Edge attest = refl
permits_of_Edge deliver_pass = refl
permits_of_Edge deliver_conditional = refl
permits_of_Edge deliver_fail = refl
permits_of_Edge deliver_inconclusive = refl
permits_of_Edge withdraw_draft = refl
permits_of_Edge cancel_draft = refl
permits_of_Edge expire_draft = refl
permits_of_Edge withdraw_quoted = refl
permits_of_Edge cancel_quoted = refl
permits_of_Edge expire_quoted = refl
permits_of_Edge withdraw_payment_required = refl
permits_of_Edge cancel_payment_required = refl
permits_of_Edge expire_payment_required = refl

pub permits_iff :
    (from : RunStatus) (actor : RunActor) (to : RunStatus)
    → (permits from actor to ≡ true) ↔ Edge from actor to
unfolding permits
permits_iff from actor to = (
  λ h. Edge_of_Named from actor to (Named-of_permits (transitions from) actor to h),
  permits_of_Edge,
)
