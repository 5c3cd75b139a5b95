-- ===== src/Mvba.antt =====
-- core/mvba/consensus/: the protocol MVBA.
pub mod Messages
pub mod Effects
pub mod Counters
pub mod Signals
pub mod Coins
pub mod Commits
pub mod CommitRuns
pub mod Cbc
pub mod Aba
pub mod Elector
pub mod Core
pub mod Runs
pub mod Pieces
pub mod Epochs
pub mod Signatures
pub mod Finals
pub mod Halts
pub mod Seeds
pub mod Repeats
pub mod Tasks
pub mod CommitOrder
mod Tests
