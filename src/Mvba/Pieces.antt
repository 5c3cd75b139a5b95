-- ===== src/Mvba/Pieces.antt =====
-- core/mvba/consensus/core.go: what the pieces of the methods keep to, whole runs keep to.
mod Defs
mod Handlers
mod Outputs
mod Whole
pub use Defs.*
pub use Handlers.*
pub use Outputs.*
pub use Whole.*
