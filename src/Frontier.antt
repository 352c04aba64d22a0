-- ===== src/Frontier.antt =====
-- internal/frontier: deduplication and dispatch of the URLs to crawl, over the queue.
pub mod Params
pub mod Canonical
pub mod Fingerprint
pub mod Segments
pub mod Blacklist
pub mod State
pub mod Ops
pub mod Once
pub mod Retries
pub mod Direct
