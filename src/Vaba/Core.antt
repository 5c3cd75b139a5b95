-- ===== src/Vaba/Core.antt =====
-- core/vaba/consensus/core.go: the node.
mod State
mod Epochs
mod Handlers
mod Loop
unfoldable pub use State.*
unfoldable pub use Epochs.*
unfoldable pub use Handlers.*
unfoldable pub use Loop.*
