-- ===== src/Pipeline/Once.antt =====
-- apps/orchestrator-worker/src/pipeline.ts: the finaliser, and histories of a run.
use ship_yard.Prelude.{◌≡◌, OneOf, some, Text}
use ship_yard.Quote.{Quote}
use ship_yard.Checkpoint.{Checkpoint, Buffers, upsert}
use ship_yard.Pipeline.State.{RefundInput, refund_sent, probed, World}
use ship_yard.Pipeline.Ports.{Deps}
use ship_yard.Pipeline.Drive.{run_orchestrator_pipeline, finalize_run_as_inconclusive}

-- What happens to a run over time: attempts of the pipeline and finalisations, each with whatever
-- ports it meets and wherever it stops, and merges by other holders of its lease.
pub data History : World → World → Type 0 where
  begun : (w : World) → History w w
  attempted :
      {a b : World}
      → History a b
      → (d : Deps) (run_id : Text) → History a ((run_orchestrator_pipeline d run_id b).1)
  finalized :
      {a b : World}
      → History a b
      → (d : Deps) (run_id reason : Text)
      → History a ((finalize_run_as_inconclusive d run_id reason b).1)
  merged :
      {a b : World}
      → History a b
      → (buffers : Buffers) (patch : Checkpoint)
      → History a (record b { row = some (upsert buffers b.row patch) })

-- One payment, one refund nonce.
pub record SpendsOnce (w : World) : Type 0 where
  pub payment : (s t r q : Text) → OneOf (probed s r) w.calls → OneOf (probed t q) w.calls → r ≡ q
  pub refund :
      (i j : RefundInput)
      → OneOf (refund_sent i) w.calls
      → OneOf (refund_sent j) w.calls
      → i.nonce ≡ j.nonce
