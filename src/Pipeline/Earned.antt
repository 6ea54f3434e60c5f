-- ===== src/Pipeline/Earned.antt =====
-- apps/orchestrator-worker/src/pipeline.ts and its phases: what a delivered verdict rests on.
use ship_yard.Prelude.{map, ◌≡◌, refl, subst, ok, err}
use ship_yard.Plan.{CompiledTestPlan}
use ship_yard.Quote.{Quote}
use ship_yard.Delivery.Scenario.{pass}
use ship_yard.Checkpoint.{Checkpoint}
use ship_yard.Pipeline.State.{AttestationInput, World}
use ship_yard.Pipeline.Ports.{Deps}
use ship_yard.Pipeline.Steps.{Outcome, Step, onward}
use ship_yard.Pipeline.Procurement.{Purchase}
use ship_yard.Pipeline.Scenarios.{aggregate_scenario_result}
use ship_yard.Pipeline.Phases.{Execution, run_execution_phase}
use ship_yard.Pipeline.Evidence.{evidence_of, run_attestation_phase}
use ship_yard.Pipeline.Drive.{PipelineResult, final_status_of}
use ship_yard.Pipeline.Passed.{IsEarned}

abbrev GivenBy : {A : Type 0} → (A → Type 0) → Outcome A → Type 0
GivenBy Q (ok a, v) = Q a
GivenBy Q (err e, v) = Unit

-- What a call returns, if it returns, has the property.
pub record Gives {A : Type 0} (Q : A → Type 0) (o : Outcome A) : Type 0 where
  pub given : GivenBy Q o

onward-Gives :
    {A B : Type 0} (R : B → Type 0) (o : Outcome A) (rest : A → Step B)
    → ((a : A) (v : World) → o ≡ (ok a, v) → Gives R (rest a v))
    → Gives R (onward rest o)
unfolding onward
onward-Gives R (ok a, v) rest k = k a v refl
onward-Gives R (err e, v) rest k = record { given = tt }

pub Gives-onward :
    {A B : Type 0} {R : B → Type 0} {o : Outcome A} {rest : A → Step B}
    → ((a : A) (v : World) → o ≡ (ok a, v) → Gives R (rest a v))
    → Gives R (onward rest o)
Gives-onward {A} {B} {R} {o} {rest} k = onward-Gives R o rest k

pub Gives-ok :
    {A : Type 0} (Q : A → Type 0) (o : Outcome A) {a : A} {v : World}
    → Gives Q o
    → o ≡ (ok a, v)
    → Q a
Gives-ok Q o g e = subst (GivenBy Q) e g.given

module _ (d : Deps) where
  -- What stands behind a delivery: an execution of the plan, and an attestation of its verdict.
  pub record IsBased (out : PipelineResult) : Type 0 where
    pub checkpoint : Checkpoint
    pub plan : CompiledTestPlan
    pub quote : Quote
    pub purchase : Purchase
    pub before : World
    pub after : World
    pub execution : Execution
    pub executed :
        run_execution_phase d checkpoint plan quote purchase before ≡ (ok execution, after)
    pub input : AttestationInput
    pub attesting_world : World
    pub attested_world : World
    pub attested :
        run_attestation_phase d checkpoint input attesting_world
        ≡ (ok out.attestation_transaction_hash, attested_world)
    pub verdict :
        input.result ≡ aggregate_scenario_result (map evidence_of execution.scenario_results)
    pub delivered : out.final_status ≡ final_status_of input.result

  -- What a delivered PASS rests on: the attestation claims PASS, and so do the scenarios that the
  -- plan's execution returned.
  pub record IsPassBased (out : PipelineResult) : Type 0 where
    pub based : IsBased out
    pub claimed : based.input.result ≡ pass
    pub earned : IsEarned d based.execution.scenario_results
