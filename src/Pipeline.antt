-- ===== src/Pipeline.antt =====
-- apps/orchestrator-worker/src/pipeline.ts and pipeline/*.ts: a funded run is driven to its verdict.
mod State
mod Ports
mod Steps
mod Stores
mod Procurement
mod Bridging
mod CrossChain
mod Scenarios
mod Phases
mod Evidence
mod Drive
pub mod Backed
pub mod Keeps
pub mod KeptRows
pub mod KeptPayments
pub mod KeptTarget
pub mod KeptPhases
pub mod KeptRun
pub mod Once
pub mod Passed
pub mod Earned
pub mod Answering
pub mod Answered
pub mod Readable
pub mod Finalized
pub mod Ahead
pub mod Transitions
pub mod Samples
pub mod SampleRun
mod Tests
unfoldable pub use State.*
unfoldable pub use Ports.*
unfoldable pub use Steps.*
unfoldable pub use Stores.*
unfoldable pub use Procurement.*
unfoldable pub use Bridging.*
unfoldable pub use CrossChain.*
unfoldable pub use Scenarios.*
unfoldable pub use Phases.*
unfoldable pub use Evidence.*
unfoldable pub use Drive.*
