-- ===== src/Pipeline/Finalized.antt =====
-- apps/orchestrator-worker/src/pipeline.ts: `finalizeRunAsInconclusive` on a run that stopped.
use ship_yard.Prelude.{
  ℕ, ◌/◌, ◌≤◌, ◌≡◌, refl, sym, ◌∙◌, ap, subst, arith, Option, none, some, Text, true, false, leb,
  ok,
}
use ship_yard.Run.{RunStatus, RunAggregate, delivered_inconclusive, has_status}
use ship_yard.Money.{parse_atomic_amount}
use ship_yard.Quote.{Quote}
use ship_yard.Checkpoint.{CheckpointRow, load, upsert_all}
use ship_yard.Pipeline.State.{RunRecord, RunQuote, Call, World}
use ship_yard.Pipeline.Ports.{Deps}
use ship_yard.Pipeline.Steps.{Outcome, onward, tick, logged, statement}
use ship_yard.Pipeline.Stores.{status_order, load_checkpoint, find_run}
use ship_yard.Pipeline.Drive.{
  PipelineResult, finalizable_statuses, customer_payment_of, results_or_none, seconds_or,
  find_quote, finalize, finalize_run_as_inconclusive,
}
use ship_yard.Pipeline.Answering.{
  IsAttested, Succeeds, Succeeds-onward, Succeeds-statement, Answers, Holds-later,
}
use ship_yard.Pipeline.Transitions.{Stopped, begin_ok, build_ok, attest_ok, deliver_ok}
use ship_yard.Pipeline.Ahead.{Fresh}
use ship_yard.Pipeline.Answered.{run_evidence_phase_ok, run_attestation_phase_ok}
use ship_yard.Pipeline.Readable.{IsReadable, receiptable_lem}

module _ (d : Deps) (answers : Answers d) (run_id reason : Text) where
  Stopped-later :
      (r : RunAggregate) (w v : World)
      → v.run ≡ w.run
      → tick w ≤ tick v
      → Stopped d answers run_id r w
      → Stopped d answers run_id r v
  Stopped-later r w v e l s = record {
    held = Holds-later d answers r w v e l s.held;
    ours = s.ours;
    ahead = s.ahead;
    final = s.final;
  }

  load_checkpoint_read :
      (r : RunAggregate) (w : World) (row : Option CheckpointRow)
      → Stopped d answers run_id r w
      → w.row ≡ row
      → ((n : ℕ) → IsReadable (load d.buffers (upsert_all d.buffers row (d.others n))))
      → Succeeds
          (λ checkpoint v. Stopped d answers run_id r v × IsReadable checkpoint)
          (load_checkpoint d w)
  unfolding load_checkpoint
  load_checkpoint_read r w row s same readable =
      Succeeds-statement d answers
        (λ checkpoint v. Stopped d answers run_id r v × IsReadable checkpoint) _ w
        (record {
          value =
              load d.buffers
                (upsert_all d.buffers w.row (d.others (tick (logged Call.statement_sent w))));
          later = record (logged Call.statement_sent w) {
            row = upsert_all d.buffers w.row (d.others (tick (logged Call.statement_sent w)));
          };
          returned = refl;
          holds = (
            Stopped-later r w _ refl (omega arith) s,
            subst
                (λ x. IsReadable (
                  load d.buffers
                    (upsert_all d.buffers x (d.others (tick (logged Call.statement_sent w))))))
                (sym same) (readable (tick (logged Call.statement_sent w))),
          );
        })

  -- A date of the run, or the seconds of the checkpoint.
  seconds_ok :
      (Q : World → Type 0) (time : Text) (o : Option ℕ) (at : ℕ) (w : World)
      → d.dates.parse time ≡ some at
      → Q w
      → Succeeds (λ _ v. Q v) (seconds_or d time o w)
  unfolding onward
  seconds_ok Q time (some seconds) at w e q = record {
    value = seconds;
    later = w;
    returned = refl;
    holds = q;
  }
  seconds_ok Q time none at w e q =
      rw e (record { value = at / 1000; later = w; returned = refl; holds = q })

  -- The run is delivered as inconclusive, its row says so, and an attestation is stored.
  pub record IsFinalized (out : PipelineResult) (w : World) : Type 0 where
    pub verdict : out.final_status ≡ delivered_inconclusive
    pub persisted : RunRecord
    pub stored : w.run ≡ some persisted
    pub delivered : persisted.aggregate.status ≡ delivered_inconclusive
    pub attested : IsAttested w

  finalize_ok :
      (r : RunAggregate) (quote : Quote) (payment : Text × Text) (w : World)
      (row : Option CheckpointRow) (created paid : ℕ)
      → Stopped d answers run_id r w
      → w.row ≡ row
      → ((n : ℕ) → IsReadable (load d.buffers (upsert_all d.buffers row (d.others n))))
      → d.dates.parse r.created_at ≡ some created
      → parse_atomic_amount (payment.1) ≡ some paid
      → Succeeds IsFinalized (finalize d run_id reason r quote payment w)
  unfolding finalize onward
  finalize_ok r quote payment w row created paid s same readable born amount =
      Succeeds-onward (load_checkpoint_read r w row s same readable) λ checkpoint v1 h1.
        let c : IsReadable checkpoint = h1.1 in
        let updated = h1.0.held.updated in
        Succeeds-onward
          (seconds_ok (Stopped d answers run_id r) r.created_at checkpoint.started_at created v1
            born (h1.0))
          λ started v2 s2.
            Succeeds-onward
              (seconds_ok (Stopped d answers run_id r) r.updated_at checkpoint.completed_at
                s2.held.moved_at v2 s2.held.updated s2)
              λ completed v3 s3. Succeeds-onward (begin_ok d answers run_id r v3 s3) λ r1 v4 b1.
                Succeeds-onward (build_ok d answers run_id r1 v4 b1) λ r2 v5 b2.
                  Succeeds-onward
                    (run_evidence_phase_ok d answers run_id quote _ checkpoint.proposal _ started
                      completed v5 r2 b2.held
                      (receiptable_lem (results_or_none checkpoint.evidence) c.hashed))
                    λ built v6 h6.
                      Succeeds-onward
                        (attest_ok d answers run_id r2 v6
                          (record { held = h6; place = b2.place; final = b2.final }))
                        λ r3 v7 b3.
                          rw (amount, c.priced)
                            (Succeeds-onward
                              (run_attestation_phase_ok d answers checkpoint _ v7 r3 b3.held)
                              λ hash v8 h8.
                                Succeeds-onward
                                  (deliver_ok d answers run_id r3 v8
                                    (record { held = h8.0; place = b3.place; final = b3.final })
                                    (h8.1))
                                  λ r4 v9 b4. record {
                                    value = record {
                                      run_id = run_id;
                                      final_status = delivered_inconclusive;
                                      attestation_transaction_hash = hash;
                                    };
                                    later = v9;
                                    returned = refl;
                                    holds = record {
                                      verdict = refl;
                                      persisted = b4.held.old;
                                      stored = b4.held.stored;
                                      delivered = rw b4.held.same b4.place;
                                      attested = b4.attested;
                                    };
                                  })

  -- The finaliser made something of the run.
  record IsSome (o : Option PipelineResult) (w : World) : Type 0 where
    pub out : PipelineResult
    pub some_out : o ≡ some out
    pub finalized : IsFinalized out w

  IsUnmoved : RunAggregate → World → World → Type 0
  IsUnmoved r w v = Stopped d answers run_id r v × (v.row ≡ w.row)

  found_ok :
      {A : Type 0} (a : A) (r : RunAggregate) (w v : World)
      → IsUnmoved r w v
      → Succeeds (λ b later. (b ≡ a) × IsUnmoved r w later) (statement d (λ x. (ok a, x)) v)
  unfolding IsUnmoved
  found_ok a r w v u =
      Succeeds-statement d answers (λ b later. (b ≡ a) × IsUnmoved r w later) (λ x. (ok a, x)) v
        (record {
          value = a;
          later = logged Call.statement_sent v;
          returned = refl;
          holds = (refl, (Stopped-later r v _ refl (omega arith) (u.0), u.1));
        })

  find_run_ok :
      (r : RunAggregate) (w : World) (o : Option RunRecord)
      → w.run ≡ o
      → IsUnmoved r w w
      → Succeeds (λ b later. (b ≡ o) × IsUnmoved r w later) (find_run d w)
  unfolding find_run IsUnmoved
  find_run_ok r w o stored u =
      Succeeds-statement d answers (λ b later. (b ≡ o) × IsUnmoved r w later) _ w
        (record {
          value = w.run;
          later = logged Call.statement_sent w;
          returned = refl;
          holds = (stored, (Stopped-later r w _ refl (omega arith) (u.0), u.1));
        })

  -- What the finaliser returned for a run that is its to finalise.
  pub record IsDelivered (o : Outcome (Option PipelineResult)) : Type 0 where
    pub out : PipelineResult
    pub later : World
    pub returned : o ≡ (ok (some out), later)
    pub finalized : IsFinalized out later

  IsDelivered-of_IsSome : (o : Outcome (Option PipelineResult)) → Succeeds IsSome o → IsDelivered o
  IsDelivered-of_IsSome o s = record {
    out = s.holds.out;
    later = s.later;
    returned = s.returned ∙ ap (λ x. (ok x, s.later)) s.holds.some_out;
    finalized = s.holds.finalized;
  }

  -- A run that was paid for never stays where it stopped: if it has a payment and a quote on record
  -- and stands at any status between FUNDED and its delivery, and if the stores take every statement,
  -- the ports answer and the clock goes forward from the run's last transition, then the finaliser
  -- returns a result, DELIVERED_INCONCLUSIVE, and leaves the run's row at that status and an attestation of the run stored. The amounts and
  -- dates on record must read as such, whatever other holders of the lease merge into the checkpoint,
  -- and the keys of the transitions ahead must be new.
  pub finalize_run_as_inconclusive-IsDelivered :
      (w : World) (r : RunRecord) (quote : RunQuote) (payment : Text × Text)
      (created updated paid : ℕ)
      → w.run ≡ some r
      → has_status finalizable_statuses r.aggregate.status ≡ true
      → customer_payment_of r ≡ some payment
      → parse_atomic_amount (payment.1) ≡ some paid
      → d.find_quote r.quote_id ≡ some quote
      → d.dates.parse r.aggregate.created_at ≡ some created
      → d.dates.parse r.aggregate.updated_at ≡ some updated
      → updated ≤ d.time (tick w)
      → ((to : RunStatus)
          → leb (status_order to) (status_order r.aggregate.status) ≡ false
          → Fresh run_id r.aggregate to)
      → Fresh run_id r.aggregate delivered_inconclusive
      → ((n : ℕ) → IsReadable (load d.buffers (upsert_all d.buffers w.row (d.others n))))
      → IsDelivered (finalize_run_as_inconclusive d run_id reason w)
  unfolding finalize_run_as_inconclusive find_quote IsUnmoved
  finalize_run_as_inconclusive-IsDelivered w r quote payment created updated paid stored ours
        paid_for amount quoted born moved past ahead final readable =
      let start : Stopped d answers run_id r.aggregate w = record {
        held = record {
          old = r;
          stored = stored;
          same = refl;
          moved_at = updated;
          updated = moved;
          since = λ n l. ground (arith, past, answers.forward (tick w) n l);
        };
        ours = ours;
        ahead = ahead;
        final = final;
      } in
      let run : Succeeds IsSome (finalize_run_as_inconclusive d run_id reason w) =
        Succeeds-onward (find_run_ok r.aggregate w (some r) stored (start, refl)) λ o v1 h1.
          rw (h1.0, ours, paid_for)
            (Succeeds-onward (found_ok (d.find_quote r.quote_id) r.aggregate w v1 (h1.1)) λ q v2 h2.
              rw (h2.0, quoted)
                (Succeeds-onward
                  (finalize_ok r.aggregate quote.quote payment v2 w.row created paid (h2.1.0)
                    (h2.1.1) readable born amount)
                  λ out v3 done. record {
                    value = some out;
                    later = v3;
                    returned = refl;
                    holds = record { out = out; some_out = refl; finalized = done };
                  })) in
      IsDelivered-of_IsSome _ run
