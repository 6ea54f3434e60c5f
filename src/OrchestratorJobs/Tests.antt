-- ===== src/OrchestratorJobs/Tests.antt =====
-- A job that is claimed, drives its run to the verdict and is acknowledged.
use ship_yard.Prelude.{
  ◌≡◌, refl, true, false, Bool, none, some, [], ◌∷◌, codes, text_eq, length, ok, err, arith, ◌==◌,
  List, Text,
}
use ship_yard.Table.{find_row, update_row}
use ship_yard.Run.{funded}
use ship_yard.PaymentJobs.Jobs.{
  Job, Jobs, ClaimedJob, pending, key_of_job, is_worker_id, is_error_code,
}
use ship_yard.PaymentJobs.Queue.{bury, is_claimable, candidate, claimed, claim_next as claim_lease}
use ship_yard.PaymentJobs.Mark.{IsParked}
use ship_yard.Pipeline.{
  World, PipelineError, PipelineResult, Outcome, procurement_denied, run_orchestrator_pipeline,
}
use ship_yard.Pipeline.Samples.{sample_deps, start_world}
use ship_yard.Pipeline.SampleRun.{passed_out, passed_world, passes}
use ship_yard.OrchestratorJobs.Queue.{claim_next}
use ship_yard.OrchestratorJobs.Worker.{OrchestratorJobResult, handle, mark}
use ship_yard.OrchestratorJobs.Parked.{mark-handle-IsParked}

abbrev waiting_job : Job
waiting_job = record {
  run_id = codes "run";
  status = pending;
  attempts = 0;
  maximum_attempts = 3;
  available_at = 10;
  created_at = 5;
  locked_at = none;
  locked_by = none;
  last_error_code = none;
  failure_codes = none;
  completed_at = none;
}

abbrev held_job : Job
held_job = claimed (codes "w1") 20 waiting_job

abbrev first_claim : ClaimedJob
first_claim = record {
  run_id = codes "run";
  attempt = 1;
  maximum_attempts = 3;
  lease_owner = codes "w1";
}

abbrev passing : PipelineError → Bool
passing e = true

machine : Unit {0}
unfolding codes text_eq find_row update_row bury is_claimable candidate claim_lease claim_next
    is_worker_id is_error_code
machine = tt

claims_first :
    claim_next (codes "w1") 60 20 (waiting_job ∷ []) ≡ ok (some first_claim, held_job ∷ [])
unfolding machine
claims_first = refl

named : (length (codes "run") == 0) ≡ false
unfolding machine
named = refl

not_denied :
    (o : Outcome PipelineResult) (denials : List Text) (v : World)
    → o ≡ (ok passed_out, passed_world)
    → ¬ (o ≡ (err (procurement_denied denials), v))
not_denied o denials v good bad = cc

mark-handle-IsParked_example :
    (out : OrchestratorJobResult × World) × (handle sample_deps passing first_claim
        (start_world funded)
      ≡ ok out)
    × ((after : Jobs) × (mark first_claim (out.0) 30 (held_job ∷ []) ≡ ok after)
        × ((x : Job) × (find_row key_of_job first_claim.run_id after ≡ some x) × IsParked x))
mark-handle-IsParked_example =
    mark-handle-IsParked sample_deps passing (codes "w1") 60 20 (waiting_job ∷ []) (held_job ∷ [])
      first_claim 30 (start_world funded) claims_first named (omega arith, omega arith)
      (λ denials v bad. absurd (
        not_denied (run_orchestrator_pipeline sample_deps (codes "run") (start_world funded))
          denials v passes bad))
