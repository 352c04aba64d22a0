-- ===== src/Queue.antt =====
-- internal/queue/queue.go: the in-memory priority queue, one list of jobs for each domain. `Defs`
-- and `Ops` hold the state and every operation; the other children prove their laws.
pub mod Defs
pub mod Ops
pub mod Insert
pub mod Filing
pub mod Invariant
pub mod Dispatch
pub mod Best
pub mod Rotation
pub mod Refusals
pub mod Workers
pub mod Dedup
pub mod Retries
pub mod Waiting
