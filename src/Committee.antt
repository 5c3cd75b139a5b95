-- ===== src/Committee.antt =====
-- core/config.go: the committee, its lookups and its thresholds. The Go map of authorities is the
-- list of its entries in some order of iteration, so a key stands in it once.
mod Defs
pub mod Lookup
pub mod Quorum
unfoldable pub use Defs.*
mod Tests
