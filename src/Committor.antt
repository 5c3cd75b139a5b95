-- ===== src/Committor.antt =====
-- core/smvba/consensus/commitor.go and core/vaba/consensus/commitor.go, the same code twice: blocks
-- that are decided in any order go out in the order of their epochs.
mod Defs
pub mod Order
pub mod Runs
unfoldable pub use Defs.*
mod Tests
