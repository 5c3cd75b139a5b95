-- ===== src/Smvba/Aggreator.antt =====
-- core/smvba/consensus/aggreator.go: the vote counters of one node.
mod Defs
pub mod Quorums
pub mod FinVotes
pub mod Prevotes
pub mod FinishVotes
pub mod Leaders
unfoldable pub use Defs.*
