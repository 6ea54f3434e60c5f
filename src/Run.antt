-- ===== src/Run.antt =====
-- packages/run-domain/src/run-state-machine.ts: the run aggregate and its guarded transitions.
mod States
mod Defs
pub mod Names
pub mod Graph
pub mod Transition
pub mod History
mod Tests
unfoldable pub use States.*
unfoldable pub use Defs.*
