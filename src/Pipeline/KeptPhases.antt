-- ===== src/Pipeline/KeptPhases.antt =====
-- The phases around the procurement: the payments that they present, and that of the checkpoint.
use ship_yard.Prelude.{ℕ, Option, none, some, List, [], ◌∷◌, Text, Bool-cases, inl, inr}
use ship_yard.Plan.{CompiledTestPlan, RiskClassification}
use ship_yard.Quote.{Quote}
use ship_yard.Delivery.Scenario.{
  PaymentHeaderName, x_payment, payment_signature, AttemptEvidence, Verdict,
}
use ship_yard.Checkpoint.{ScenarioResult, Checkpoint}
use ship_yard.Pipeline.State.{
  RunQuote, plan_refused, bad_url, no_executor, no_response_hash, no_receipts, ToolReceipt,
  EvidencePackContent, BuiltEvidencePack, StoredPack, StoredAttestation, AttestationInput,
  classified, signed, published, probed, attested, World,
}
use ship_yard.Pipeline.Ports.{UrlParts, Deps}
use ship_yard.Pipeline.Procurement.{Purchase}
use ship_yard.Pipeline.Scenarios.{ScenarioKind, find_executor}
use ship_yard.Pipeline.Phases.{
  Execution, initial_status, no_status, planned_of, run_risk_analysis_phase, probe_known, probe_all,
  settled, settled_if, execution_of, run_execution_phase,
}
use ship_yard.Pipeline.Evidence.{
  receipt_of_first, build_unsigned_tool_receipt, sign_all, build_evidence_pack, put_pack_if_none,
  run_evidence_phase, attestation_of, put_attestation_if_none, run_attestation_phase,
}
use ship_yard.Pipeline.Backed.{AllBacked}
use ship_yard.Pipeline.Keeps.{
  After, Any, later_refl, later_trans, threw, After-onward, pure_lem, perform_lem, instant_lem,
  lift_kept, or_raise_kept, raise_if_kept,
}
use ship_yard.Pipeline.KeptRows.{
  merge_checkpoint_lem, find_pack_lem, find_attestation_lem, put_pack_lem, put_attestation_lem,
}
use ship_yard.Pipeline.KeptPayments.{IsHeld}

module _ (d : Deps) where
  planned_of_lem :
      (w : World)
      → AllBacked w
      → (proposal : Option RiskClassification) (quote : RunQuote) (o : Option CompiledTestPlan)
      → After Any w (planned_of d proposal quote o w)
  planned_of_lem w b proposal quote (some plan) = pure_lem w b Any (plan, proposal) tt
  planned_of_lem w b proposal quote none =
      After-onward (perform_lem w b _ classified _ tt) λ (fresh : RiskClassification) v l _.
        After-onward (lift_kept v l.backed plan_refused _) λ (plan : CompiledTestPlan) v2 l2 _.
          After-onward (merge_checkpoint_lem d v2 l2.backed _)
            λ _ v3 l3 _. pure_lem v3 l3.backed Any (plan, some fresh) tt

  pub run_risk_analysis_phase_lem :
      (w : World)
      → AllBacked w
      → (checkpoint : Checkpoint) (quote : RunQuote)
      → After Any w (run_risk_analysis_phase d checkpoint quote w)
  unfolding run_risk_analysis_phase
  run_risk_analysis_phase_lem w b checkpoint quote =
      planned_of_lem w b checkpoint.proposal quote checkpoint.plan

  probe_known_lem :
      (w : World)
      → AllBacked w
      → (id : Text) (o : Option ScenarioKind) (quote : Quote) (purchase : Purchase) (route : Text)
        (results : List ScenarioResult)
      → IsHeld purchase w
      → After Any w (probe_known d id o quote purchase route results w)
  probe_known_lem w b id none quote purchase route results held = pure_lem w b Any results tt
  probe_known_lem w b id (some kind) quote purchase route results held =
      After-onward (perform_lem w b _ (probed id purchase.purchase_receipt) _ held)
        λ (result : ScenarioResult) v l _. pure_lem v l.backed Any _ tt

  probe_all_lem :
      (ids : List Text) (w : World)
      → AllBacked w
      → (quote : Quote) (purchase : Purchase) (route : Text) (results : List ScenarioResult)
      → IsHeld purchase w
      → After Any w (probe_all d quote purchase route ids results w)
  unfolding probe_all
  probe_all_lem [] w b quote purchase route results held = pure_lem w b Any results tt
  probe_all_lem (id ∷ ids) w b quote purchase route results held =
      After-onward (probe_known_lem w b id (find_executor id) quote purchase route results held)
        λ more v l _.
          probe_all_lem ids v l.backed quote purchase route more
            (l.grows.receipt purchase.purchase_receipt held)

  settled_lem :
      (w : World)
      → AllBacked w
      → (purchase : Purchase) (attempts : List AttemptEvidence) (o : Option Text)
      → After Any w (settled d purchase attempts o w)
  settled_lem w b purchase attempts none = elim (Bool-cases (no_status (initial_status attempts))) [
    | inl silent ↦ rw silent (threw (later_refl b))
    | inr spoke ↦ rw spoke (threw (later_refl b))
  ]
  settled_lem w b purchase attempts (some hash) =
      After-onward (merge_checkpoint_lem d w b _) λ _ v l _. pure_lem v l.backed Any tt tt

  settled_if_lem :
      (w : World)
      → AllBacked w
      → (name : PaymentHeaderName) (purchase : Purchase) (attempts : List AttemptEvidence)
      → After Any w (settled_if d name purchase attempts w)
  settled_if_lem w b x_payment purchase attempts = pure_lem w b Any tt tt
  settled_if_lem w b payment_signature purchase attempts = settled_lem w b purchase attempts _

  execution_of_lem :
      (w : World)
      → AllBacked w
      → (plan : CompiledTestPlan) (quote : Quote) (purchase : Purchase) (o : Option Execution)
      → IsHeld purchase w
      → After Any w (execution_of d plan quote purchase o w)
  execution_of_lem w b plan quote purchase (some e) held = pure_lem w b Any e tt
  execution_of_lem w b plan quote purchase none held =
      After-onward (instant_lem w b d) λ started v l _.
        After-onward (or_raise_kept v l.backed bad_url _) λ (target : UrlParts) v2 l2 _.
          After-onward
            (probe_all_lem plan.scenarios v2 l2.backed quote purchase _ []
              ((later_trans l l2).grows.receipt purchase.purchase_receipt held))
            λ results v3 l3 _. After-onward (raise_if_kept v3 l3.backed _ no_executor) λ _ v4 l4 _.
              After-onward (settled_if_lem v4 l4.backed purchase.payment_header_name purchase _)
                λ _ v5 l5 _. After-onward (instant_lem v5 l5.backed d) λ completed v6 l6 _.
                  After-onward (merge_checkpoint_lem d v6 l6.backed _)
                    λ _ v7 l7 _. pure_lem v7 l7.backed Any _ tt

  pub run_execution_phase_lem :
      (w : World)
      → AllBacked w
      → (checkpoint : Checkpoint) (plan : CompiledTestPlan) (quote : Quote) (purchase : Purchase)
      → IsHeld purchase w
      → After Any w (run_execution_phase d checkpoint plan quote purchase w)
  unfolding run_execution_phase
  run_execution_phase_lem w b checkpoint plan quote purchase held =
      After-onward (execution_of_lem w b plan quote purchase _ held)
        λ e v l _. pure_lem v l.backed Any _ tt

  receipt_of_first_lem :
      (w : World)
      → AllBacked w
      → (run_id : Text) (quote : Quote) (started completed : ℕ) (result : ScenarioResult)
        (attempts : List AttemptEvidence)
      → After Any w (receipt_of_first d run_id quote started completed result attempts w)
  receipt_of_first_lem w b run_id quote started completed result [] = threw (later_refl b)
  receipt_of_first_lem w b run_id quote started completed result (a ∷ rest) =
      After-onward (or_raise_kept w b no_response_hash _)
        λ (response : Text) v l _. pure_lem v l.backed Any _ tt

  sign_all_lem :
      (results : List ScenarioResult) (w : World)
      → AllBacked w
      → (run_id : Text) (quote : Quote) (started completed : ℕ) (receipts : List ToolReceipt)
      → After Any w (sign_all d run_id quote started completed results receipts w)
  unfolding sign_all build_unsigned_tool_receipt
  sign_all_lem [] w b run_id quote started completed receipts = pure_lem w b Any receipts tt
  sign_all_lem (r ∷ rs) w b run_id quote started completed receipts =
      After-onward (receipt_of_first_lem w b run_id quote started completed r r.evidence.attempts)
        λ unsigned v l _.
          After-onward (perform_lem v l.backed _ signed _ tt) λ (signature : Text) v2 l2 _.
            sign_all_lem rs v2 l2.backed run_id quote started completed _

  build_evidence_pack_lem :
      (w : World)
      → AllBacked w
      → (content : EvidencePackContent) → After Any w (build_evidence_pack d content w)
  unfolding build_evidence_pack
  build_evidence_pack_lem w b content =
      After-onward (raise_if_kept w b _ no_receipts) λ _ v l _. pure_lem v l.backed Any _ tt

  put_pack_if_none_lem :
      (w : World)
      → AllBacked w
      → (pack : BuiltEvidencePack) (uri : Text) (o : Option StoredPack)
      → After Any w (put_pack_if_none d pack uri o w)
  put_pack_if_none_lem w b pack uri (some old) = pure_lem w b Any tt tt
  put_pack_if_none_lem w b pack uri none =
      After-onward (instant_lem w b d) λ now v l _. put_pack_lem d v l.backed _

  pub run_evidence_phase_lem :
      (w : World)
      → AllBacked w
      → (run_id : Text) (quote : Quote) (plan : CompiledTestPlan)
        (proposal : Option RiskClassification) (results : List ScenarioResult)
        (started completed : ℕ) (forced : Option Verdict)
      → After Any w
          (run_evidence_phase d run_id quote plan proposal results started completed forced w)
  unfolding run_evidence_phase
  run_evidence_phase_lem w b run_id quote plan proposal results started completed forced =
      After-onward (sign_all_lem results w b run_id quote started completed []) λ receipts v l _.
        After-onward (build_evidence_pack_lem v l.backed _) λ pack v2 l2 _.
          After-onward (perform_lem v2 l2.backed _ published _ tt) λ (uri : Text) v3 l3 _.
            After-onward (find_pack_lem d v3 l3.backed) λ stored v4 l4 _.
              After-onward (put_pack_if_none_lem v4 l4.backed pack uri stored)
                λ _ v5 l5 _. pure_lem v5 l5.backed Any _ tt

  attestation_of_lem :
      (w : World)
      → AllBacked w
      → (input : AttestationInput) (o : Option Text) → After Any w (attestation_of d input o w)
  attestation_of_lem w b input (some hash) = pure_lem w b Any hash tt
  attestation_of_lem w b input none =
      After-onward (perform_lem w b _ (attested input) _ tt) λ (hash : Text) v l _.
        After-onward (merge_checkpoint_lem d v l.backed _)
          λ _ v2 l2 _. pure_lem v2 l2.backed Any hash tt

  put_attestation_if_none_lem :
      (w : World)
      → AllBacked w
      → (input : AttestationInput) (hash : Text) (o : Option StoredAttestation)
      → After Any w (put_attestation_if_none d input hash o w)
  put_attestation_if_none_lem w b input hash (some old) = pure_lem w b Any tt tt
  put_attestation_if_none_lem w b input hash none =
      After-onward (instant_lem w b d) λ now v l _. put_attestation_lem d v l.backed _

  pub run_attestation_phase_lem :
      (w : World)
      → AllBacked w
      → (checkpoint : Checkpoint) (input : AttestationInput)
      → After Any w (run_attestation_phase d checkpoint input w)
  unfolding run_attestation_phase
  run_attestation_phase_lem w b checkpoint input =
      After-onward (attestation_of_lem w b input _) λ hash v l _.
        After-onward (find_attestation_lem d v l.backed) λ stored v2 l2 _.
          After-onward (put_attestation_if_none_lem v2 l2.backed input hash stored)
            λ _ v3 l3 _. pure_lem v3 l3.backed Any hash tt
