-- ===== src/Mvba/Messages.antt =====
-- core/mvba/consensus/message.go: the messages; each with how it is made, hashed and checked.
mod Blocks
mod Broadcasts
mod Agreements
mod Kinds
unfoldable pub use Blocks.*
unfoldable pub use Broadcasts.*
unfoldable pub use Agreements.*
unfoldable pub use Kinds.*
