-- ===== src/Vaba/Promote.antt =====
-- core/vaba/consensus/promote.go: one promotion of a block.
mod Defs
pub mod Runs
pub mod Once
pub mod NilBlocks
unfoldable pub use Defs.*
