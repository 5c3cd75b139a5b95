-- ===== src/Smvba/Spb.antt =====
-- core/smvba/consensus/spb.go: one instance of strong provable broadcast.
mod Defs
pub mod Runs
pub mod Steps
pub mod Races
pub mod Alone
pub mod Quorum
pub mod Locks
unfoldable pub use Defs.*
