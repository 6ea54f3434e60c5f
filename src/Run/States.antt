-- ===== src/Run/States.antt =====
-- packages/run-domain/src/run-state-machine.ts: statuses, actors and the transition table.
use ship_yard.Prelude.{ℕ, Bool, false, ◌||◌, Option, none, some, List, [], ◌∷◌, ◌==◌, if◌then◌else◌}

pub data RunStatus : Type 0 where
  draft quoted payment_required funded analyzing plan_compiled procuring executing : RunStatus
  replanning evidence_building attesting delivered_pass delivered_conditional : RunStatus
  delivered_fail delivered_inconclusive cancelled expired : RunStatus

pub data RunResult : Type 0 where
  pass conditional fail inconclusive : RunResult

pub data RunActor : Type 0 where
  requester quote_engine merchant_gateway payment_reconciler orchestrator policy_engine : RunActor
  procurement_worker execution_worker evidence_worker attestor system : RunActor

-- The position in `RUN_STATUSES`: two statuses are `===` when they stand at one position.
abbrev pub status_index : RunStatus → ℕ
status_index draft = 0
status_index quoted = 1
status_index payment_required = 2
status_index funded = 3
status_index analyzing = 4
status_index plan_compiled = 5
status_index procuring = 6
status_index executing = 7
status_index replanning = 8
status_index evidence_building = 9
status_index attesting = 10
status_index delivered_pass = 11
status_index delivered_conditional = 12
status_index delivered_fail = 13
status_index delivered_inconclusive = 14
status_index cancelled = 15
status_index expired = 16

-- The position in `RUN_ACTORS`.
abbrev pub actor_index : RunActor → ℕ
actor_index requester = 0
actor_index quote_engine = 1
actor_index merchant_gateway = 2
actor_index payment_reconciler = 3
actor_index orchestrator = 4
actor_index policy_engine = 5
actor_index procurement_worker = 6
actor_index execution_worker = 7
actor_index evidence_worker = 8
actor_index attestor = 9
actor_index system = 10

unfoldable pub same_status : RunStatus → RunStatus → Bool
same_status a b = status_index a == status_index b

unfoldable pub same_actor : RunActor → RunActor → Bool
same_actor a b = actor_index a == actor_index b

-- `statuses.has(status)`
unfoldable pub has_status : List RunStatus → RunStatus → Bool
unfolding same_status
has_status [] s = false
has_status (t ∷ ts) s = same_status t s || has_status ts s

-- `actors.has(actor)`
unfoldable pub has_actor : List RunActor → RunActor → Bool
unfolding same_actor
has_actor [] a = false
has_actor (b ∷ bs) a = same_actor b a || has_actor bs a

abbrev pub terminal_statuses : List RunStatus
terminal_statuses =
    delivered_pass ∷ delivered_conditional ∷ delivered_fail ∷ delivered_inconclusive ∷ cancelled
    ∷ expired ∷ []

unfoldable pub is_terminal_run_status : RunStatus → Bool
unfolding has_status
is_terminal_run_status s = has_status terminal_statuses s

pub record TransitionRule : Type 0 where
  pub to : RunStatus
  pub actors : List RunActor

abbrev pub rule : RunStatus → List RunActor → TransitionRule
rule to actors = record { to = to; actors = actors }

-- `TRANSITIONS`
abbrev pub transitions : RunStatus → List TransitionRule
transitions draft =
    rule quoted (quote_engine ∷ [])
    ∷ rule cancelled (requester ∷ system ∷ [])
    ∷ rule expired (system ∷ [])
    ∷ []
transitions quoted =
    rule payment_required (merchant_gateway ∷ [])
    ∷ rule cancelled (requester ∷ system ∷ [])
    ∷ rule expired (system ∷ [])
    ∷ []
transitions payment_required =
    rule funded (payment_reconciler ∷ [])
    ∷ rule cancelled (requester ∷ system ∷ [])
    ∷ rule expired (system ∷ [])
    ∷ []
transitions funded = rule analyzing (orchestrator ∷ []) ∷ []
transitions analyzing =
    rule plan_compiled (policy_engine ∷ [])
    ∷ rule evidence_building (orchestrator ∷ system ∷ [])
    ∷ []
transitions plan_compiled =
    rule procuring (procurement_worker ∷ [])
    ∷ rule evidence_building (policy_engine ∷ system ∷ [])
    ∷ []
transitions procuring =
    rule executing (procurement_worker ∷ execution_worker ∷ [])
    ∷ rule replanning (orchestrator ∷ [])
    ∷ rule evidence_building (procurement_worker ∷ system ∷ [])
    ∷ []
transitions executing =
    rule replanning (orchestrator ∷ [])
    ∷ rule evidence_building (execution_worker ∷ system ∷ [])
    ∷ []
transitions replanning =
    rule procuring (policy_engine ∷ procurement_worker ∷ [])
    ∷ rule executing (policy_engine ∷ execution_worker ∷ [])
    ∷ rule evidence_building (orchestrator ∷ system ∷ [])
    ∷ []
transitions evidence_building = rule attesting (evidence_worker ∷ []) ∷ []
transitions attesting =
    rule delivered_pass (attestor ∷ [])
    ∷ rule delivered_conditional (attestor ∷ [])
    ∷ rule delivered_fail (attestor ∷ [])
    ∷ rule delivered_inconclusive (attestor ∷ [])
    ∷ []
transitions _ = []

-- `rules.find((candidate) => candidate.to === to)`
unfoldable pub find_rule : RunStatus → List TransitionRule → Option TransitionRule
unfolding same_status
find_rule to [] = none
find_rule to (r ∷ rs) = if same_status r.to to then some r else find_rule to rs

-- `rule?.actors.has(actor)`
abbrev pub rule_permits : Option TransitionRule → RunActor → Bool
rule_permits none actor = false
rule_permits (some r) actor = has_actor r.actors actor

unfoldable pub permits : RunStatus → RunActor → RunStatus → Bool
unfolding find_rule has_actor
permits from actor to = rule_permits (find_rule to (transitions from)) actor
