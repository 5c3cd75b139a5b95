-- ===== src/Pool.antt =====
-- pool/: the transaction queue of a node, and the batches that it hands to the consensus core.
mod Defs
pub mod Minting
pub mod Order
mod Tests
unfoldable pub use Defs.*
