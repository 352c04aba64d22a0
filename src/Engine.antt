-- ===== src/Engine.antt =====
-- internal/crawler/engine.go: what a worker does with a job, from the fetch to the stored page.
pub mod Page
pub mod State
pub mod Backlog
pub mod Persist
pub mod Process
pub mod Retries
pub mod Steps
pub mod Workers
