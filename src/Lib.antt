-- ===== src/Lib.antt =====
-- Duvycrawl, a web crawler with a search index: the logic of its crawl core.
--
-- The crawl: `internal/frontier` takes in URLs. It canonicalises them, drops what
-- `internal/urlfilter` or the blacklist stops, and turns the rest into scored jobs
-- (`internal/scorer`) of the in-memory queue (`internal/queue`). Workers take jobs from the
-- queue, which asks the rate limiter (`internal/ratelimit`) for a slot of the domain. A worker
-- fetches through a proxy (`internal/crawler/proxy_manager.go`) and the DNS cache
-- (`internal/crawler/dnscache.go`), obeys robots.txt (`internal/crawler/robots.go`), may ask for
-- a rendering (`internal/crawler/render_decider.go`), and hands the page to the batch writer
-- (`internal/storage/batchwriter.go`).
-- The engine (`internal/crawler/engine.go`) composes these parts. A search
-- (`internal/storage/sqlite_search.go`) reads what they stored, and may suggest another spelling
-- (`internal/storage/spellcheck.go`) or rank by what a site's paths mean (`internal/sitehints`).
-- URLs come from the scheduler (`internal/scheduler`) and from the handlers of the HTTP API
-- (`internal/api`), which also take in pages that a browser extension extracted. The settings are
-- read and validated by `internal/config`.
--
-- The files:
-- - Shared: lists, maps as association lists, 64-bit integers and strings as lists of bytes.
-- - Url: net/url and the Unicode functions of strings, as a record of parameters.
-- - Queue: `internal/queue/queue.go`. Defs and Ops hold the state and the operations; Insert is
--   about insertSorted, Filing and Invariant about the map of jobs, Rotation, Dispatch, Best and
--   Refusals about Dequeue, Workers and Dedup about interleaved goroutines, Retries about a bound
--   on the retries of the waiting jobs, and Waiting about the jobs that wait.
-- - UrlFilter, with Tables and Laws: `internal/urlfilter/urlfilter.go`.
-- - Frontier: `internal/frontier`. Canonical, Fingerprint, Segments and Params are about URLs;
--   Blacklist, State, Ops, Once, Direct and Retries about the ways in.
-- - Engine: `internal/crawler/engine.go`. Page and State hold the data, Backlog the queue of pages for
--   the browser, Persist the storing of a page and of its links, Process a job from its checks to its
--   end, Steps the rounds of the workers as interleaved steps, and Workers a bound that they keep; Retries is about how often a job is tried.
-- - Fetcher: `internal/crawler/fetcher.go`, the retries of a fetch.
-- - DomainStats: `internal/crawler/domainstats.go`, and the row that UpsertDomain leaves
--   (`internal/storage/sqlite_crawler.go`).
-- - SpellCheck: `internal/storage/spellcheck.go`. Index loads the vocabulary, Distance is the table of
--   edit distances, Suggest the choice of a word.
-- - Search: `internal/storage/sqlite_search.go`. Fts builds full-text queries, Merge joins what
--   several queries find, Promote puts a language first, and Diversify orders the answers.
-- - Api: `internal/api/middleware.go`. Limiter is the limit on requests of one address.
--   `internal/api/handlers.go`: Results is the filter of search result pages, Ingest takes in pages,
--   Crawl takes in URLs and seeds, and Interests keeps the manual interests.
-- - Scheduler: `internal/scheduler/scheduler.go`, one tick.
-- - SiteHints: `internal/sitehints`. Match is the result of a rule; Media, Code and Shops are the rules;
--   Registry finds the rule of a URL; Sound, Laws, Domains and Order are about the results.
-- - Config: `internal/config/config.go`, the settings that are validated and, in Checks, validate.
-- - RateLimit, Proxy, BatchWriter, Scoring, Robots, Render and DnsCache, each with its laws: the
--   files of these parts.
-- - Examples: small instances of the parameters and the theorems at concrete inputs.
--
-- Functions keep their Go names in snake case. A call that takes a lock is one function from state
-- to state, and concurrency is a relation whose steps are such calls. The order in which Go visits a
-- map, the time, and the answers of databases, HTTP and DNS are arguments. A Bloom filter, float64,
-- net/url and the robots.txt parser are records of operations with the documented laws that the
-- proofs use. A panic is none.
--
-- Bounds: the counters of the queue wrap at 2^64 and the round counter is read as signed; failures
-- of a proxy wrap at 2^32. Lengths and the counts of fingerprints and slots do not overflow. Fuel:
-- the binary search has one unit for each element, since each round halves the range at least by
-- one; the loop over parent domains has one more than the bytes of the domain, since each round
-- drops at least one; the passes of diversifyByDomain have one for each candidate, since a pass that
-- places none is the last; printing a status has one more than the number printed, since each round
-- divides by ten.
--
-- Not modelled: the scores of a search, the HTTP calls, the HTML parser, the renderer, the SQL, the
-- handlers that only read, that start and stop the crawler, that record an interaction or that update
-- the rankings, the loading of the configuration and
-- the commands. Most of it is I/O, SQL text or calls of third-party packages; the scores are float64
-- arithmetic over tuned constants.
pub mod Shared
pub mod Queue
pub mod Url
pub mod UrlFilter
pub mod Config
pub mod Fetcher
pub mod Frontier
pub mod RateLimit
pub mod Proxy
pub mod Api
pub mod BatchWriter
pub mod Scheduler
pub mod Scoring
pub mod Search
pub mod SiteHints
pub mod SpellCheck
pub mod Robots
pub mod Render
pub mod DnsCache
pub mod DomainStats
pub mod Engine
pub mod Examples
