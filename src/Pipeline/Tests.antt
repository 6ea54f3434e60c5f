-- ===== src/Pipeline/Tests.antt =====
-- The properties of the pipeline on a funded run that is driven to its verdict.
use ship_yard.Prelude.{ℕ, refl, arith, codes, none, includes}
use ship_yard.Run.{RunStatus, executing, delivered_inconclusive, has_status, same_status}
use ship_yard.Money.{parse_atomic_amount, read_digits}
use ship_yard.Checkpoint.{load, upsert_all}
use ship_yard.Pipeline.Ports.{Deps}
use ship_yard.Pipeline.Drive.{finalize_run_as_inconclusive}
use ship_yard.Pipeline.Samples.{run_in, paid_run, sample_quote, sample_deps, start_world}
use ship_yard.Pipeline.Answering.{Answers}
use ship_yard.Pipeline.Ahead.{Fresh}
use ship_yard.Pipeline.Readable.{IsReadable}
use ship_yard.Pipeline.Finalized.{IsDelivered, finalize_run_as_inconclusive-IsDelivered}

-- The clock stands still.
abbrev still_deps : Deps
still_deps = record sample_deps { time = λ n. 5000 }

still_answers : Answers still_deps
still_answers = record {
  statements = λ n. refl;
  signature = λ n receipt. codes "0x03";
  signs = λ n receipt. refl;
  uri = λ n content. codes "ipfs://pack";
  publishes = λ n content. refl;
  hash = λ n input. codes "0x04";
  submits = λ n input. refl;
  forward = λ m n l. omega arith;
  dated = λ n. omega arith;
}

new_key : (to : RunStatus) → Fresh (codes "run") (run_in executing) to
unfolding includes
new_key to = record { unseen = refl }

empty-IsReadable :
    (n : ℕ)
    → IsReadable
        (load still_deps.buffers (upsert_all still_deps.buffers none (still_deps.others n)))
unfolding load upsert_all parse_atomic_amount read_digits codes
empty-IsReadable n = record { hashed = tt; spend = 0; priced = refl }

finalize_run_as_inconclusive-IsDelivered_example :
    IsDelivered still_deps still_answers (codes "run") (codes "retries exhausted") (
      finalize_run_as_inconclusive still_deps
        (codes "run")
        (codes "retries exhausted")
        (start_world executing))
unfolding has_status same_status parse_atomic_amount read_digits codes
finalize_run_as_inconclusive-IsDelivered_example =
    finalize_run_as_inconclusive-IsDelivered still_deps still_answers (codes "run")
      (codes "retries exhausted") (start_world executing) (paid_run executing) sample_quote
      (codes "0xaa", codes "9") 5 7 9 refl refl refl refl refl refl refl (omega arith)
      (λ to ahead. new_key to) (new_key delivered_inconclusive) empty-IsReadable
