-- ===== src/Pipeline/Stores.antt =====
-- The statements of the stores on the rows of the run, and `advance` of pipeline.ts.
-- packages/persistence-postgres/src/api-repositories.ts, orchestrator-checkpoint-store.ts,
-- evidence-pack-store.ts, attestation-store.ts.
use ship_yard.Prelude.{
  ℕ, ◌-◌, Option, none, some, [], ◌∷◌, ◌++◌, Text, codes, leb, ◌==◌, if◌then◌else◌, ok, err,
}
use ship_yard.Run.{
  RunStatus, draft, quoted, payment_required, funded, analyzing, plan_compiled, procuring,
  executing, replanning, evidence_building, attesting, delivered_pass, delivered_conditional,
  delivered_fail, delivered_inconclusive, cancelled, expired, RunActor, RunAggregate,
  TransitionCommand, RunTransitionedEvent, transition_run,
}
use ship_yard.Checkpoint.{Checkpoint, CheckpointRow, load, merge, upsert_all}
use ship_yard.Pipeline.State.{
  run_revision_conflict, RunRecord, transition_refused, thrown, StoredPack, StoredAttestation,
  World,
}
use ship_yard.Pipeline.Ports.{Deps}
use ship_yard.Pipeline.Steps.{Outcome, Step, pure, ◌>>=◌, ◌>>◌, lift, tick, instant, statement}

-- One more than `STATUS_ORDER.indexOf(status)`.
unfoldable pub status_order : RunStatus → ℕ
status_order funded = 1
status_order analyzing = 2
status_order plan_compiled = 3
status_order procuring = 4
status_order executing = 5
status_order evidence_building = 6
status_order attesting = 7
status_order _ = 0

-- A status is its own text in the source.
unfoldable pub status_text : RunStatus → Text
status_text draft = codes "DRAFT"
status_text quoted = codes "QUOTED"
status_text payment_required = codes "PAYMENT_REQUIRED"
status_text funded = codes "FUNDED"
status_text analyzing = codes "ANALYZING"
status_text plan_compiled = codes "PLAN_COMPILED"
status_text procuring = codes "PROCURING"
status_text executing = codes "EXECUTING"
status_text replanning = codes "REPLANNING"
status_text evidence_building = codes "EVIDENCE_BUILDING"
status_text attesting = codes "ATTESTING"
status_text delivered_pass = codes "DELIVERED_PASS"
status_text delivered_conditional = codes "DELIVERED_CONDITIONAL"
status_text delivered_fail = codes "DELIVERED_FAIL"
status_text delivered_inconclusive = codes "DELIVERED_INCONCLUSIVE"
status_text cancelled = codes "CANCELLED"
status_text expired = codes "EXPIRED"

-- `orchestrator:${runId}:${to}`
unfoldable pub transition_key : Text → RunStatus → Text
transition_key run_id to = codes "orchestrator:" ++ (run_id ++ (codes ":" ++ status_text to))

abbrev pub command_to : Text → RunAggregate → RunActor → RunStatus → Text → TransitionCommand
command_to run_id current actor to occurred_at = record {
  actor = actor;
  expected_revision = current.revision;
  idempotency_key = transition_key run_id to;
  occurred_at = occurred_at;
  to = to;
}

-- The columns that `save` sets, and the key that `run_events` adds.
abbrev pub saved_record : RunAggregate → RunTransitionedEvent → RunRecord → RunRecord
saved_record next event old = record old {
  aggregate = record (old.aggregate) {
    status = next.status;
    result = next.result;
    revision = next.revision;
    updated_at = next.updated_at;
    applied_idempotency_keys = old.aggregate.applied_idempotency_keys ++ event.idempotency_key ∷ [];
  };
}

-- `UPDATE runs ... WHERE id = $1 AND revision = $6`, in one transaction with the event.
abbrev pub save_found :
    RunAggregate → RunTransitionedEvent → ℕ → World → Option RunRecord → Outcome (Unit {0})
save_found next event expected w none = (err run_revision_conflict, w)
save_found next event expected w (some old) =
    if old.aggregate.revision == expected
    then (
      ok tt,
      record w { run = some (saved_record next event old); events = w.events ++ event ∷ [] },
    )
    else (err run_revision_conflict, w)

module _ (d : Deps) where
  -- `runRepository.save`
  unfoldable pub save_run : RunAggregate → RunTransitionedEvent → ℕ → Step (Unit {0})
  save_run next event expected = statement d (λ w. save_found next event expected w w.run)

  -- `if (!result.event) return; await save(...)`
  abbrev pub save_event : RunAggregate → Option RunTransitionedEvent → Step (Unit {0})
  save_event next none = pure tt
  save_event next (some event) = save_run next event (next.revision - 1)

  -- A transition of the run, saved.
  unfoldable pub move : Text → RunAggregate → RunActor → RunStatus → Step RunAggregate
  move run_id current actor to = do
    now ← instant d
    result ←
        lift transition_refused
          (transition_run d.dates current (command_to run_id current actor to (d.dates.to_iso now)))
    save_event result.run result.event
    pure result.run

  -- `advance`
  unfoldable pub advance : Text → RunAggregate → RunActor → RunStatus → Step RunAggregate
  unfolding status_order
  advance run_id current actor to =
      if leb (status_order to) (status_order current.status)
      then pure current
      else move run_id current actor to

  -- The row of the checkpoint as the other holders of the lease left it.
  abbrev pub current_row : World → Option CheckpointRow
  current_row w = upsert_all d.buffers w.row (d.others (tick w))

  abbrev pub read_checkpoint : World → Outcome Checkpoint
  read_checkpoint w = (ok (load d.buffers (current_row w)), record w { row = current_row w })

  -- `checkpointStore.load`
  unfoldable pub load_checkpoint : Step Checkpoint
  load_checkpoint = statement d read_checkpoint

  abbrev pub write_checkpoint : Checkpoint → World → Outcome Checkpoint
  write_checkpoint patch w =
      let merged = merge d.buffers (current_row w) patch in
      (ok (merged.0), record w { row = some (merged.1) })

  -- `checkpointStore.merge`
  unfoldable pub merge_checkpoint : Checkpoint → Step Checkpoint
  merge_checkpoint patch = statement d (write_checkpoint patch)

  -- `evidencePackStore.getByRunId` and `attestationStore.getByRunId`
  unfoldable pub find_pack : Step (Option StoredPack)
  find_pack = statement d (λ w. (ok w.pack, w))

  unfoldable pub find_attestation : Step (Option StoredAttestation)
  find_attestation = statement d (λ w. (ok w.attestation, w))

  -- `evidencePackStore.put` and `attestationStore.put`; the key is taken where there is a row.
  abbrev pub put_pack_row : StoredPack → World → Option StoredPack → Outcome (Unit {0})
  put_pack_row pack w none = (ok tt, record w { pack = some pack })
  put_pack_row pack w (some old) = (err (thrown (codes "duplicate key")), w)

  unfoldable pub put_pack : StoredPack → Step (Unit {0})
  put_pack pack = statement d (λ w. put_pack_row pack w w.pack)

  abbrev pub put_attestation_row :
      StoredAttestation → World → Option StoredAttestation → Outcome (Unit {0})
  put_attestation_row attestation w none = (ok tt, record w { attestation = some attestation })
  put_attestation_row attestation w (some old) = (err (thrown (codes "duplicate key")), w)

  unfoldable pub put_attestation : StoredAttestation → Step (Unit {0})
  put_attestation attestation = statement d (λ w. put_attestation_row attestation w w.attestation)

  -- `runRepository.findById`
  unfoldable pub find_run : Step (Option RunRecord)
  find_run = statement d (λ w. (ok w.run, w))
