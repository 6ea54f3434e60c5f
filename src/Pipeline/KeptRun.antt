-- ===== src/Pipeline/KeptRun.antt =====
-- pipeline.ts: the payments that an attempt presents, and that of the checkpoint.
use ship_yard.Prelude.{ℕ, Option, none, some, Text, ok, err, Bool-cases, inl, inr}
use ship_yard.Run.{
  RunAggregate, RunStatus, analyzing, plan_compiled, procuring, executing, evidence_building,
  attesting, orchestrator, policy_engine, procurement_worker, execution_worker, evidence_worker,
  attestor, same_status,
}
use ship_yard.Plan.{CompiledTestPlan}
use ship_yard.Quote.{Quote}
use ship_yard.Checkpoint.{Checkpoint}
use ship_yard.Pipeline.State.{
  RunRecord, RunQuote, run_not_found, quote_not_found, missing_payment, bad_amount, statement_sent,
  World,
}
use ship_yard.Pipeline.Ports.{PayerRegistration, Deps}
use ship_yard.Pipeline.Steps.{Outcome}
use ship_yard.Pipeline.CrossChain.{resolve_cross_chain_payer}
use ship_yard.Pipeline.Drive.{
  caught, procure, deliver_as, drive, find_quote, run_orchestrator_pipeline,
}
use ship_yard.Pipeline.Backed.{AllBacked}
use ship_yard.Pipeline.Keeps.{
  After, Any, later_trans, returned, threw, After-onward, pure_lem, logged_lem, statement_lem,
  or_raise_kept, raise_if_kept,
}
use ship_yard.Pipeline.KeptRows.{
  IsRead, IsRead-Grows, load_checkpoint_lem, move_lem, advance_lem, find_run_lem,
}
use ship_yard.Pipeline.KeptPayments.{IsHeld, run_procurement_phase_lem}
use ship_yard.Pipeline.KeptTarget.{run_cross_chain_procurement_phase_lem}
use ship_yard.Pipeline.KeptPhases.{
  run_risk_analysis_phase_lem, run_execution_phase_lem, run_evidence_phase_lem,
  run_attestation_phase_lem,
}

module _ (d : Deps) where
  procure_lem :
      (w : World)
      → AllBacked w
      → (o : Option PayerRegistration) (run_id : Text) (checkpoint : Checkpoint)
        (plan : CompiledTestPlan) (quote : Quote) (status : RunStatus)
      → IsRead checkpoint w.row
      → After IsHeld w (procure d o run_id checkpoint plan quote status w)
  procure_lem w b none run_id checkpoint plan quote status read =
      run_procurement_phase_lem d w b run_id checkpoint plan quote status read
  procure_lem w b (some payer) run_id checkpoint plan quote status read =
      run_cross_chain_procurement_phase_lem d w b payer run_id checkpoint plan quote status read

  pub deliver_as_lem :
      (w : World)
      → AllBacked w
      → (run_id : Text) (current : RunAggregate) (final : RunStatus)
      → After Any w (deliver_as d run_id current final w)
  unfolding deliver_as
  deliver_as_lem w b run_id current final = elim (Bool-cases (same_status current.status final)) [
    | inl done ↦ rw done (pure_lem w b Any current tt)
    | inr open_ ↦ rw open_ (move_lem d w b run_id current attestor final)
  ]

  -- The pipeline behind the execution of the scenarios.
  drive_lem :
      (w : World)
      → AllBacked w
      → (run_id : Text) (run : RunAggregate) (quote : RunQuote) (payment : Text × Text)
        (checkpoint : Checkpoint)
      → IsRead checkpoint w.row
      → After Any w (drive d run_id run quote payment checkpoint w)
  unfolding drive
  drive_lem w b run_id run quote payment checkpoint read =
      After-onward (advance_lem d w b run_id run orchestrator analyzing) λ r1 v1 l1 _.
        After-onward (run_risk_analysis_phase_lem d v1 l1.backed checkpoint quote)
          λ planned v2 l2 _.
            After-onward (advance_lem d v2 l2.backed run_id r1 policy_engine plan_compiled)
              λ r2 v3 l3 _.
                After-onward (advance_lem d v3 l3.backed run_id r2 procurement_worker procuring)
                  λ r3 v4 l4 _. After-onward (raise_if_kept v4 l4.backed _ _) λ _ v5 l5 _.
                    let before =
                      later_trans l1 (later_trans l2 (later_trans l3 (later_trans l4 l5))) in
                    After-onward
                      (procure_lem v5 l5.backed (resolve_cross_chain_payer d quote) run_id
                        checkpoint (planned.0) quote.quote r3.status
                        (IsRead-Grows read before.grows))
                      λ purchase v6 l6 held.
                        After-onward
                          (advance_lem d v6 l6.backed run_id r3 procurement_worker executing)
                          λ r4 v7 l7 _.
                            After-onward
                              (run_execution_phase_lem d v7 l7.backed checkpoint (planned.0)
                                quote.quote purchase
                                (l7.grows.receipt purchase.purchase_receipt held))
                              λ execution v8 l8 _.
                                After-onward
                                  (advance_lem d v8 l8.backed run_id r4 execution_worker
                                    evidence_building)
                                  λ r5 v9 l9 _.
                                    After-onward
                                      (run_evidence_phase_lem d v9 l9.backed run_id quote.quote
                                        (planned.0) (planned.1) _ _ _ none)
                                      λ built v10 l10 _.
                                        After-onward
                                          (advance_lem d v10 l10.backed run_id r5 evidence_worker
                                            attesting)
                                          λ r6 v11 l11 _.
                                            After-onward (or_raise_kept v11 l11.backed bad_amount _)
                                              λ (paid : ℕ) v12 l12 _.
                                                After-onward
                                                  (run_attestation_phase_lem d v12 l12.backed
                                                    checkpoint _)
                                                  λ hash v13 l13 _.
                                                    After-onward
                                                      (deliver_as_lem v13 l13.backed run_id r6 _)
                                                      λ _ v14 l14 _.
                                                        pure_lem v14 l14.backed Any _ tt

  caught_lem : {A : Type 0} (w : World) (o : Outcome A) → After Any w o → After Any w (caught o)
  caught_lem w (ok a, v) h = h
  caught_lem w (err e, v) h = threw h.held

  pub find_quote_lem : (w : World) → AllBacked w → (id : Text) → After Any w (find_quote d id w)
  unfolding find_quote
  find_quote_lem w b id =
      statement_lem w b Any d (λ v. (ok (d.find_quote id), v))
        (returned (logged_lem w b statement_sent tt) tt)

  pub run_orchestrator_pipeline_lem :
      (w : World)
      → AllBacked w
      → (run_id : Text) → After Any w (run_orchestrator_pipeline d run_id w)
  unfolding run_orchestrator_pipeline
  run_orchestrator_pipeline_lem w b run_id = After-onward (find_run_lem d w b) λ found v1 l1 _.
      After-onward (or_raise_kept v1 l1.backed run_not_found found) λ (r : RunRecord) v2 l2 _.
        After-onward (raise_if_kept v2 l2.backed _ _) λ _ v3 l3 _.
          After-onward (find_quote_lem v3 l3.backed r.quote_id) λ found_quote v4 l4 _.
            After-onward (or_raise_kept v4 l4.backed quote_not_found found_quote)
              λ (quote : RunQuote) v5 l5 _.
                After-onward (or_raise_kept v5 l5.backed missing_payment _)
                  λ (payment : Text × Text) v6 l6 _.
                    After-onward (load_checkpoint_lem d v6 l6.backed) λ checkpoint v7 l7 read.
                      caught_lem v7 (drive d run_id r.aggregate quote payment checkpoint v7)
                        (drive_lem v7 l7.backed run_id r.aggregate quote payment checkpoint read)
