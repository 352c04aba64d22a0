-- ===== src/Search.antt =====
-- internal/storage/sqlite_search.go: the full-text queries it builds, and the order of its answers.
pub mod Fts
pub mod Diversify
pub mod Merge
pub mod Promote
