-- ===== src/Examples.antt =====
-- The theorems at concrete inputs.
pub mod Instances
pub mod Queues
pub mod Crawl
pub mod Network
pub mod Words
pub mod Engines
pub mod Hints
pub mod Handlers
pub mod Ranking
