-- ===== src/CrossChain.antt =====
-- packages/x402-payments/src/cross-chain-procurement.ts: bridge first, then pay the target.
mod Defs
mod Checks
pub mod Trace
pub mod Refund
pub mod Payable
pub mod Funding
mod Tests
unfoldable pub use Defs.*
unfoldable pub use Checks.*
