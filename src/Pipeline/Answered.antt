-- ===== src/Pipeline/Answered.antt =====
-- The phases of the finaliser, where the stores take their statements and the ports answer.
use ship_yard.Prelude.{
  ℕ, ◌≤◌, ◌≡◌, refl, arith, Option, none, some, Text, Bool, true, false, ok, ◌∷◌, [], List, All,
  ◌&&◌,
}
use ship_yard.Run.{RunAggregate}
use ship_yard.Checkpoint.{Checkpoint, ScenarioResult, truthy}
use ship_yard.Quote.{Quote}
use ship_yard.Plan.{CompiledTestPlan, RiskClassification}
use ship_yard.Delivery.Scenario.{inconclusive}
use ship_yard.Pipeline.Evidence.{
  no_tool_receipts, attestation_of, put_pack_if_none, put_attestation_if_none, sign_all,
  build_unsigned_tool_receipt, run_evidence_phase, build_evidence_pack, run_attestation_phase,
}
use ship_yard.Pipeline.State.{
  ToolReceipt, BuiltEvidencePack, StoredPack, StoredAttestation, AttestationInput, no_receipts,
  Call, World,
}
use ship_yard.Pipeline.Ports.{Deps}
use ship_yard.Pipeline.Steps.{raise_if, Outcome, onward, tick, logged, statement}
use ship_yard.Pipeline.Stores.{
  load_checkpoint, merge_checkpoint, find_pack, put_pack, find_attestation, put_attestation,
}
use ship_yard.Pipeline.Answering.{
  IsReceiptable, IsAttested, Succeeds, Succeeds-onward, Answers, Succeeds-statement,
  Succeeds-perform, Holds, Holds-later,
}

module _ (d : Deps) (answers : Answers d) where
  -- A statement on another row of the run.
  pub statement_ok :
      {A : Type 0} (w v : World) (r : RunAggregate) (change : World → Outcome A) (a : A)
      → Holds d answers r w
      → change (logged Call.statement_sent w) ≡ (ok a, v)
      → v.run ≡ w.run
      → tick w ≤ tick v
      → Succeeds (λ _ later. Holds d answers r later) (statement d change w)
  statement_ok w v r change a h e same more =
      Succeeds-statement d answers (λ _ later. Holds d answers r later) change w
        (record {
          value = a;
          later = v;
          returned = e;
          holds = Holds-later d answers r w v same more h;
        })

  pub load_checkpoint_ok :
      (w : World) (r : RunAggregate)
      → Holds d answers r w
      → Succeeds (λ _ v. Holds d answers r v) (load_checkpoint d w)
  unfolding load_checkpoint
  load_checkpoint_ok w r h = statement_ok w _ r _ _ h refl refl (omega arith)

  pub merge_checkpoint_ok :
      (patch : Checkpoint) (w : World) (r : RunAggregate)
      → Holds d answers r w
      → Succeeds (λ _ v. Holds d answers r v) (merge_checkpoint d patch w)
  unfolding merge_checkpoint
  merge_checkpoint_ok patch w r h = statement_ok w _ r _ _ h refl refl (omega arith)

  find_pack_ok :
      (w : World) (r : RunAggregate)
      → Holds d answers r w
      → Succeeds (λ o v. Holds d answers r v × (v.pack ≡ o)) (find_pack d w)
  unfolding find_pack
  find_pack_ok w r h =
      Succeeds-statement d answers (λ o v. Holds d answers r v × (v.pack ≡ o)) _ w
        (record {
          value = w.pack;
          later = logged Call.statement_sent w;
          returned = refl;
          holds = (Holds-later d answers r w _ refl (omega arith) h, refl);
        })

  put_pack_ok :
      (pack : StoredPack) (w : World) (r : RunAggregate)
      → Holds d answers r w
      → w.pack ≡ none
      → Succeeds (λ _ v. Holds d answers r v) (put_pack d pack w)
  unfolding put_pack
  put_pack_ok pack w r h free =
      statement_ok w (record (logged Call.statement_sent w) { pack = some pack }) r _ tt h
        (rw free refl) refl (omega arith)

  find_attestation_ok :
      (w : World) (r : RunAggregate)
      → Holds d answers r w
      → Succeeds (λ o v. Holds d answers r v × (v.attestation ≡ o)) (find_attestation d w)
  unfolding find_attestation
  find_attestation_ok w r h =
      Succeeds-statement d answers (λ o v. Holds d answers r v × (v.attestation ≡ o)) _ w
        (record {
          value = w.attestation;
          later = logged Call.statement_sent w;
          returned = refl;
          holds = (Holds-later d answers r w _ refl (omega arith) h, refl);
        })

  put_attestation_ok :
      (attestation : StoredAttestation) (w : World) (r : RunAggregate)
      → Holds d answers r w
      → w.attestation ≡ none
      → Succeeds (λ _ v. Holds d answers r v × IsAttested v) (put_attestation d attestation w)
  unfolding put_attestation
  put_attestation_ok attestation w r h free =
      let stored : World = record (logged Call.statement_sent w) {
        attestation = some attestation;
      } in
      Succeeds-statement d answers (λ _ v. Holds d answers r v × IsAttested v) _ w
        (record {
          value = tt;
          later = stored;
          returned = rw free refl;
          holds = (
            Holds-later d answers r w stored refl (omega arith) h,
            record { attestation = attestation; kept = refl },
          );
        })

  pub put_pack_if_none_ok :
      (pack : BuiltEvidencePack) (uri : Text) (o : Option StoredPack) (w : World) (r : RunAggregate)
      → Holds d answers r w
      → w.pack ≡ o
      → Succeeds (λ _ v. Holds d answers r v) (put_pack_if_none d pack uri o w)
  unfolding onward
  put_pack_if_none_ok pack uri (some old) w r h e = record {
    value = tt;
    later = w;
    returned = refl;
    holds = h;
  }
  put_pack_if_none_ok pack uri none w r h e = put_pack_ok _ w r h e

  pub put_attestation_if_none_ok :
      (input : AttestationInput) (hash : Text) (o : Option StoredAttestation) (w : World)
      (r : RunAggregate)
      → Holds d answers r w
      → w.attestation ≡ o
      → Succeeds
          (λ _ v. Holds d answers r v × IsAttested v)
          (put_attestation_if_none d input hash o w)
  unfolding onward
  put_attestation_if_none_ok input hash (some old) w r h e = record {
    value = tt;
    later = w;
    returned = refl;
    holds = (h, record { attestation = old; kept = e });
  }
  put_attestation_if_none_ok input hash none w r h e = put_attestation_ok _ w r h e

  Succeeds-pure :
      {A : Type 0} (a : A) (w : World) (r : RunAggregate)
      → Holds d answers r w
      → Succeeds (λ _ v. Holds d answers r v) (ok a, w)
  Succeeds-pure a w r h = record { value = a; later = w; returned = refl; holds = h }

  sign_all_ok :
      (run_id : Text) (quote : Quote) (started completed : ℕ) (results : List ScenarioResult)
      (receipts : List ToolReceipt) (w : World) (r : RunAggregate)
      → Holds d answers r w
      → All IsReceiptable results
      → Succeeds
          (λ _ v. Holds d answers r v)
          (sign_all d run_id quote started completed results receipts w)
  unfolding sign_all build_unsigned_tool_receipt onward
  sign_all_ok run_id quote started completed [] receipts w r h all = Succeeds-pure receipts w r h
  sign_all_ok run_id quote started completed (x ∷ xs) receipts w r h all =
      let p : IsReceiptable x = all.0 in
      rw (p.first, p.kept)
        (Succeeds-onward
          (Succeeds-perform d answers (λ _ v. Holds d answers r v) _ _ _ w (answers.signs _ _)
            (Holds-later d answers r w _ refl (omega arith) h))
          λ _ v held. sign_all_ok run_id quote started completed xs _ v r held (all.1))

  -- An inconclusive pack needs no receipts.
  build_ok :
      (none_signed : Bool) (pack : BuiltEvidencePack) (w : World) (r : RunAggregate)
      → Holds d answers r w
      → Succeeds
          (λ _ v. Holds d answers r v)
          (onward (λ _ v. (ok pack, v)) (raise_if (none_signed && false) no_receipts w))
  unfolding onward
  build_ok true pack w r h = Succeeds-pure pack w r h
  build_ok false pack w r h = Succeeds-pure pack w r h

  pub run_evidence_phase_ok :
      (run_id : Text) (quote : Quote) (plan : CompiledTestPlan)
      (proposal : Option RiskClassification) (results : List ScenarioResult) (started completed : ℕ)
      (w : World) (r : RunAggregate)
      → Holds d answers r w
      → All IsReceiptable results
      → Succeeds
          (λ _ v. Holds d answers r v)
          (run_evidence_phase d run_id quote plan proposal results started completed
            (some inconclusive)
            w)
  unfolding run_evidence_phase build_evidence_pack
  run_evidence_phase_ok run_id quote plan proposal results started completed w r h all =
      Succeeds-onward (sign_all_ok run_id quote started completed results [] w r h all)
        λ receipts v1 h1.
          Succeeds-onward {P = λ _ v. Holds d answers r v}
            (build_ok (no_tool_receipts receipts) _ v1 r h1)
            λ pack v2 h2.
              Succeeds-onward
                (Succeeds-perform d answers (λ _ v. Holds d answers r v) _ _ _ v2
                  (answers.publishes _ _) (Holds-later d answers r v2 _ refl (omega arith) h2))
                λ uri v3 h3. Succeeds-onward (find_pack_ok v3 r h3) λ stored v4 h4.
                  Succeeds-onward (put_pack_if_none_ok pack uri stored v4 r (h4.0) (h4.1))
                    λ _ v5 h5. Succeeds-pure _ v5 r h5

  attestation_of_ok :
      (input : AttestationInput) (o : Option Text) (w : World) (r : RunAggregate)
      → Holds d answers r w
      → Succeeds (λ _ v. Holds d answers r v) (attestation_of d input o w)
  attestation_of_ok input (some hash) w r h = Succeeds-pure hash w r h
  attestation_of_ok input none w r h =
      Succeeds-onward
        (Succeeds-perform d answers (λ _ v. Holds d answers r v) _ _ _ w (answers.submits _ _)
          (Holds-later d answers r w _ refl (omega arith) h))
        λ hash v1 h1.
          Succeeds-onward (merge_checkpoint_ok _ v1 r h1) λ _ v2 h2. Succeeds-pure hash v2 r h2

  pub run_attestation_phase_ok :
      (checkpoint : Checkpoint) (input : AttestationInput) (w : World) (r : RunAggregate)
      → Holds d answers r w
      → Succeeds
          (λ _ v. Holds d answers r v × IsAttested v)
          (run_attestation_phase d checkpoint input w)
  unfolding run_attestation_phase
  run_attestation_phase_ok checkpoint input w r h =
      Succeeds-onward
        (attestation_of_ok input (truthy checkpoint.attestation_transaction_hash) w r h)
        λ hash v1 h1. Succeeds-onward (find_attestation_ok v1 r h1) λ stored v2 h2.
          Succeeds-onward (put_attestation_if_none_ok input hash stored v2 r (h2.0) (h2.1))
            λ _ v3 h3. record { value = hash; later = v3; returned = refl; holds = h3 }
