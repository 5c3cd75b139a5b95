-- ===== src/Smvba/Elector.antt =====
-- core/smvba/consensus/elector.go: the leaders of the rounds.
mod Defs
pub mod Agreement
pub mod Chances
unfoldable pub use Defs.*
