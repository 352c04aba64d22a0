-- ===== src/Api.antt =====
-- internal/api/middleware.go: the part of the HTTP API that keeps state.
pub mod Limiter
pub mod Results
pub mod Ingest
pub mod Crawl
pub mod Interests
