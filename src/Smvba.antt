-- ===== src/Smvba.antt =====
-- core/smvba/consensus/: the protocol sMVBA of one node.
pub mod Messages
mod Tests
pub mod Signing
pub mod Aggreator
pub mod Elector
pub mod Effects
pub mod Spb
pub mod Core
pub mod Epochs
pub mod Runs
pub mod Dones
pub mod DoneOnce
pub mod Instances
pub mod NoPanic
pub mod Quiet
pub mod Signatures
pub mod Blocks
pub mod Halts
pub mod CommitOrder
