-- ===== src/Mvba/Aba.antt =====
-- core/mvba/consensus/aba.go.
mod Defs
pub mod Runs
pub mod Once
pub mod Flags
pub mod Agreement
unfoldable pub use Defs.*
