-- ===== src/Smvba/Signing.antt =====
-- core/smvba/consensus/message.go: how the messages are made, hashed and checked. The signing
-- request never fails, so a constructor gives the message alone.
mod Broadcasts
mod Votes
mod Kinds
unfoldable pub use Broadcasts.*
unfoldable pub use Votes.*
unfoldable pub use Kinds.*
