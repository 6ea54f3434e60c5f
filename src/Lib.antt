-- ===== src/Lib.antt =====
-- ShipYard402: the rules that decide over money and runs, modelled from the TypeScript packages.
--
-- A run is quoted (Quote), paid for by the customer (Settlement), moved through its states (Run),
-- given a test plan (Plan), allowed to buy from tools (Policy), sometimes over a bridge to another
-- chain (CrossChain), and accounted for (Ledger, Money). A worker claims the job of a run that awaits
-- payment (PaymentJobs) and reconciles its payment or expires it (Reconciliation), which calls the
-- verifier and the state machine and commits to the store. Once the run is funded, a second worker
-- claims its other job (OrchestratorJobs) and drives the run to a verdict (Pipeline): it analyses the
-- risk, buys from the target within the mandate, probes it (Delivery), signs the evidence and attests
-- it, and writes down after every step what it has done (Checkpoint).
--
--   Prelude     Boolean tests, lists, texts (lists of UTF-16 units), results, pushed codes,
--               integers; shared by all.
--   Dates       the dates of the runtime, a parameter: Date.parse and toISOString.
--   Money       packages/run-domain/src/money.ts: parseAtomicAmount, addMoney.
--   Ledger      packages/run-domain/src/economic-ledger.ts: calculateRunEconomics,
--               calculateAssetPosition.
--   Run         packages/run-domain/src/run-state-machine.ts: createDraftRun, transitionRun
--               (Run/States, Run/Defs); its table as a relation (Run/Graph), single calls
--               (Run/Transition), histories of a run (Run/History).
--   Settlement  packages/x402-payments/src/settlement-verifier.ts: verifySettlement; the calls of
--               the ethers library are the parameter Ethers.
--   CrossChain  packages/x402-payments/src/cross-chain-procurement.ts: the checks (Checks), the
--               state machine (Defs) and sequences of its events (Trace).
--   Policy      packages/policy-engine/src: canonicalizeHost (Hosts), isForbiddenHost (Forbidden),
--               runMandateSchema (Mandate), authorizePurchase (Purchase).
--   Egress      packages/policy-engine/src/egress-broker.ts: the fetch that follows redirects, with
--               the hosts it reaches (Safe) and the headers it sends (Headers).
--   Quote       packages/quote-engine/src/quote-engine.ts: validatePricing, createQuote; the request
--               schema and the hash of the canonical JSON are parameters.
--   Table       tables with a primary key and guarded updates of one row.
--   Reconciliation
--               packages/payment-reconciliation/src/payment-reconciler.ts (Reconciler) over the two
--               commits of packages/persistence-postgres/src/payment-reconciliation-store.ts (Store);
--               what a funding rests on (Funded), what the commits leave (Commits), calls again
--               (Retry) and calls that race (Race).
--   PaymentJobs
--               packages/persistence-postgres/src/payment-job-queue.ts (Jobs, Queue) and
--               apps/payment-worker/src/worker.ts (Worker); leases (Lease), rows (Consistent) and
--               what becomes of a claimed job (Mark, Progress).
--   Delivery    packages/protected-delivery-runner/src: the shared types and checks (Scenario),
--               replay-runner.ts (Replay), invalid-credential-runner.ts (Credential); what the
--               verdicts say about the target (Verdict, Rejection).
--   Checkpoint  packages/persistence-postgres/src/orchestrator-checkpoint-store.ts: load, merge; the
--               row as write-once registers (Register).
--   Pipeline    apps/orchestrator-worker/src: pipeline.ts (Drive: runOrchestratorPipeline,
--               finalizeRunAsInconclusive; advance in Stores), pipeline/types.ts, errors.ts and
--               ports.ts (State, Ports), procurement-phase.ts and mandate-builder.ts (Procurement),
--               cross-chain-procurement-phase.ts (Bridging, CrossChain), scenarios.ts (Scenarios),
--               risk-analysis-phase.ts and execution-phase.ts (Phases), evidence-phase.ts,
--               attestation-phase.ts and their builders (Evidence). A phase is a step on the rows of
--               the run and the calls that left the worker (Steps). What its calls have to do with the
--               checkpoint is followed phase by phase (Backed, Keeps, KeptRows, KeptPayments,
--               KeptTarget, KeptPhases, KeptRun) and over histories of attempts (Once); what a
--               verdict rests on is in Passed and Earned; the finaliser is followed to its end in
--               Finalized, over the steps that succeed (Answering, Answered), the checkpoints that
--               it can read (Readable) and the transitions ahead of a run (Ahead, Transitions).
--   OrchestratorJobs
--               packages/persistence-postgres/src/orchestrator-job-queue.ts (Queue), the statements
--               of PaymentJobs/Queue on its own table, and apps/orchestrator-worker/src/worker.ts
--               (Worker); what becomes of a claimed job (Parked).
--   Plan        packages/risk-classifier/src/test-plan-compiler.ts: compileTestPlan.
--
-- A call that throws returns an error. Numbers of the sources that are never negative are natural
-- numbers, `bigint` values are unbounded as in the sources, and only where a difference can be
-- negative (Ledger) integers are used. Texts are compared by their units; lower case is modelled on
-- the ASCII letters, which is all that addresses, hashes and host names use. The only recursion that
-- is not on a list is the printing of decimals, which is on the accessibility of `<`, and the loop of
-- the egress fetch, which is on the passes that its own bound, maxRedirects + 1, leaves.
--
-- A port of the pipeline is a function of the number of calls and statements before it, so it may
-- answer differently each time or throw; a statement of a store may throw, and just before it other
-- holders of the lease may have merged into the checkpoint. A delivery client is a function of the
-- request and of the probe that it is used in.
--
-- Not modelled: transport, chains and user interface (apps/api-gateway, apps/web-dashboard, the
-- adapters and the targets), the start-up and the adapters of the workers, the rest of
-- packages/persistence-postgres, the hashes of packages/evidence-sdk and the contracts. A statement of
-- SQL is one step on a list of rows; a transaction is one step that is rolled back where it throws; a
-- load and a later commit are two steps, with any store between them.
pub mod Prelude
pub mod Dates
pub mod Table
pub mod Money
pub mod Ledger
pub mod Run
pub mod Settlement
pub mod CrossChain
pub mod Policy
pub mod Egress
pub mod Quote
pub mod Plan
pub mod Reconciliation
pub mod PaymentJobs
pub mod Delivery
pub mod Checkpoint
pub mod Pipeline
pub mod OrchestratorJobs
