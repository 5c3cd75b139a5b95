-- ===== src/Smvba/Core.antt =====
-- core/smvba/consensus/core.go: the state of one node and its message handlers.
mod State
mod Rounds
mod Handlers
mod Loop
unfoldable pub use State.*
unfoldable pub use Rounds.*
unfoldable pub use Handlers.*
unfoldable pub use Loop.*
