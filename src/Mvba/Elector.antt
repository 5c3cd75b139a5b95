-- ===== src/Mvba/Elector.antt =====
-- core/mvba/consensus/elector.go.
mod Defs
pub mod Order
unfoldable pub use Defs.*
