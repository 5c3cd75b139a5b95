-- ===== src/Vaba.antt =====
-- core/vaba/consensus/: the protocol VABA, its messages and its components below the node.
pub mod Messages
pub mod Effects
pub mod Aggreator
pub mod Elector
pub mod Commits
pub mod Promote
pub mod Core
pub mod Signatures
mod Tests
pub mod Runs
mod Quiet
mod Fed
pub mod CommitOrder
mod Shares
pub mod Elections
