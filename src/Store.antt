-- ===== src/Store.antt =====
-- store/store.go: the request loop before the database.
mod Defs
unfoldable pub use Defs.*
