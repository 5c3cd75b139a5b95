-- ===== src/Vaba/Messages.antt =====
-- core/vaba/consensus/message.go: the block and the messages; each with how it is made, hashed and
-- checked.
mod Broadcasts
mod Views
mod Kinds
unfoldable pub use Broadcasts.*
unfoldable pub use Views.*
unfoldable pub use Kinds.*
