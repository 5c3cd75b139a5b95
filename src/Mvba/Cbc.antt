-- ===== src/Mvba/Cbc.antt =====
-- core/mvba/consensus/cbc.go.
mod Defs
pub mod Shows
pub mod Once
pub mod Votes
pub mod Steps
pub mod Accounts
pub mod Alone
unfoldable pub use Defs.*
