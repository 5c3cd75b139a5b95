-- ===== src/Crypto.antt =====
-- crypto/crypto.go: the hasher, the signature service, and the binary rendering of integers that
-- the messages are hashed through.
mod Defs
pub mod Digits
unfoldable pub use Defs.*
mod Tests
